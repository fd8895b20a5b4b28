-- ===== src/SlabPool/Blocks.antt =====
-- The free blocks of a slab pool.
use yifei.Prelude.{
  ℕ, ◌-◌, ◌%◌, ◌^◌, ◌≤◌, ◌<◌, ◌≡◌, ◌≢◌, ◌⊎◌, refl, sym, ap, ◌∙◌, subst, arith, true, false, List,
  [], ◌∷◌, ltb, ◌==◌, get_or, set, length, length-set, get_or-set_self, get_or-set_ne, Bool-cases,
  inl, inr, ltb→lt, ltb→ge, ==→eq, ==→ne, eq→==, ne→==, Absent, Distinct,
}
use mathlib.Core.Bool.{true≢false}
use yifei.Prelude.Int.{pos, ltb_ℤ}
use yifei.Search.{IsPosition, bsearch-IsPosition_by}
use yifei.SlabPool.{SlabPool, SlabTrick, check_trick, set_trick, cmp_size, class_of}

-- The trick before a free block of this size.
pub record IsIdle (size part : ℕ) (t : SlabTrick) : Type 0 where
  pub room : 8 ≤ part
  pub checked : check_trick (part - 8) t ≡ true
  pub sized : t.size ≡ size
  pub unused : t.used ≡ false

abbrev pub AllIdle : (ℕ → SlabTrick) → ℕ → List ℕ → Type 0
AllIdle tricks size [] = Unit {0}
AllIdle tricks size (part ∷ parts) =
    IsIdle size part (tricks (part - 8)) × AllIdle tricks size parts

pub record IsValid (pool : SlabPool) : Type 0 where
  pub lists : length pool.free ≡ pool.type
  pub rises : (p q : ℕ) → p < q → q < pool.type → get_or pool.sizes p 0 < get_or pool.sizes q 0
  pub whole : (q : ℕ) → q < pool.type → get_or pool.sizes q 0 % 8 ≡ 0
  pub small : (q : ℕ) → q < pool.type → get_or pool.sizes q 0 < 2 ^ 14
  pub idle :
      (q : ℕ) → q < pool.type → AllIdle pool.tricks (get_or pool.sizes q 0) (get_or pool.free q [])
  pub once : (q : ℕ) → q < pool.type → Distinct (get_or pool.free q [])

pub set_trick_self : (tricks : ℕ → SlabTrick) (a : ℕ) (t : SlabTrick) → set_trick tricks a t a ≡ t
unfolding set_trick
set_trick_self tricks a t = rw (eq→== a a refl) refl

pub set_trick_ne :
    (tricks : ℕ → SlabTrick) (a : ℕ) (t : SlabTrick) (u : ℕ)
    → a ≢ u
    → set_trick tricks a t u ≡ tricks u
unfolding set_trick
set_trick_ne tricks a t u n = rw (ne→== a u n) refl

-- A change of the trick of a block that is not among these.
pub AllIdle-set_trick :
    (tricks : ℕ → SlabTrick) (part : ℕ) (t : SlabTrick) (size : ℕ) (parts : List ℕ)
    → 8 ≤ part
    → Absent part parts
    → AllIdle tricks size parts
    → AllIdle (set_trick tricks (part - 8) t) size parts
AllIdle-set_trick tricks part t size [] l f a = tt
AllIdle-set_trick tricks part t size (x ∷ xs) l f a =
    let room = a.0.room in
    (
      subst (IsIdle size x)
          (sym (set_trick_ne tricks (part - 8) t (x - 8) (λ e. f.0 (omega (arith, e))))) a.0,
      AllIdle-set_trick tricks part t size xs l f.1 a.1,
    )

-- A block in use, or of another size, is not among the idle ones of this size.
pub used-Absent :
    (tricks : ℕ → SlabTrick) (part size : ℕ) (parts : List ℕ)
    → ((tricks (part - 8)).used ≡ true) ⊎ ((tricks (part - 8)).size ≢ size)
    → AllIdle tricks size parts
    → Absent part parts
used-Absent tricks part size [] h a = tt
used-Absent tricks part size (x ∷ xs) h a = (
  (λ e.
      unlike h (ap (λ k. (tricks (k - 8)).used) e ∙ a.0.unused)
        (ap (λ k. (tricks (k - 8)).size) e ∙ a.0.sized)),
  used-Absent tricks part size xs h a.1,
)
  where
    unlike :
        ((tricks (part - 8)).used ≡ true) ⊎ ((tricks (part - 8)).size ≢ size)
        → (tricks (part - 8)).used ≡ false
        → (tricks (part - 8)).size ≡ size
        → ⊥
    unlike (inl u) f e = true≢false (sym u ∙ f)
    unlike (inr n) f e = n e

-- The comparison of sizes tells their order.
cmp_size-ltb :
    (size item : ℕ)
    → (ltb_ℤ (cmp_size size item) (pos 0) ≡ ltb size item)
      × (ltb_ℤ (pos 0) (cmp_size size item) ≡ ltb item size)
unfolding cmp_size
cmp_size-ltb size item = (ground arith, ground arith)

pub class_of-IsPosition :
    (pool : SlabPool) (size : ℕ)
    → IsValid pool
    → IsPosition (λ i. get_or pool.sizes i 0) size pool.type (class_of pool size)
unfolding class_of
class_of-IsPosition pool size v =
    bsearch-IsPosition_by cmp_size (λ i. get_or pool.sizes i 0) size pool.type
      (λ i l. cmp_size-ltb size (get_or pool.sizes i 0)) v.rises

-- The place of a size that the pool has.
pub class_of_self :
    (pool : SlabPool) (i : ℕ)
    → IsValid pool
    → i < pool.type
    → class_of pool (get_or pool.sizes i 0) ≡ i
class_of_self pool i v l =
    let c = class_of pool (get_or pool.sizes i 0) in
    let p = class_of-IsPosition pool (get_or pool.sizes i 0) v in
    elim (Bool-cases (ltb i c)) [
      | inl h ↦ absurd (omega (arith, p.before i (ltb→lt i c h)))
      | inr h ↦ elim (Bool-cases (ltb c i)) [
        | inl k ↦
            let lt = ltb→lt c i k in
            absurd (omega (arith, v.rises c i lt l, p.behind c (omega arith) (omega (arith, lt))))
        | inr k ↦ omega (arith, ltb→ge i c h, ltb→ge c i k)
      ]
    ]

-- The pool after the list of one size and the trick of one block changed.
abbrev pub with_block : SlabPool → (i : ℕ) → List ℕ → (part : ℕ) → SlabTrick → SlabPool
with_block pool i parts part t = record pool {
  free = set pool.free i parts;
  tricks = set_trick pool.tricks (part - 8) t;
}

module _ {pool : SlabPool} (v : IsValid pool) where
  pub with_block-IsValid :
      (i part : ℕ) (parts : List ℕ) (t : SlabTrick)
      → i < pool.type
      → 8 ≤ part
      → ((j : ℕ) → j < pool.type → i ≢ j → Absent part (get_or pool.free j []))
      → AllIdle (set_trick pool.tricks (part - 8) t) (get_or pool.sizes i 0) parts
      → Distinct parts
      → IsValid (with_block pool i parts part t)
  with_block-IsValid i part parts t l room others a n =
      let here : get_or (set pool.free i parts) i [] ≡ parts =
        get_or-set_self pool.free i parts [] (omega (arith, v.lists)) in
      record {
        lists = length-set pool.free i parts ∙ v.lists;
        rises = v.rises;
        whole = v.whole;
        small = v.small;
        idle = λ q k. elim (Bool-cases (i == q)) [
          | inl e ↦
              subst
                (λ j.
                  AllIdle (set_trick pool.tricks (part - 8) t) (get_or pool.sizes j 0)
                    (get_or (set pool.free i parts) j []))
                (==→eq i q e)
                (subst (AllIdle (set_trick pool.tricks (part - 8) t) (get_or pool.sizes i 0))
                  (sym here) a)
          | inr m ↦
              let off = get_or-set_ne pool.free i q parts [] (==→ne i q m) in
              subst (AllIdle (set_trick pool.tricks (part - 8) t) (get_or pool.sizes q 0)) (sym off)
                (AllIdle-set_trick pool.tricks part t (get_or pool.sizes q 0)
                  (get_or pool.free q []) room (others q k (==→ne i q m)) (v.idle q k))
        ];
        once = λ q k. elim (Bool-cases (i == q)) [
          | inl e ↦
              subst (λ j. Distinct (get_or (set pool.free i parts) j [])) (==→eq i q e)
                (subst Distinct (sym here) n)
          | inr m ↦
              subst Distinct (sym (get_or-set_ne pool.free i q parts [] (==→ne i q m))) (v.once q k)
        ];
      }

  -- Two places hold different sizes.
  sizes_ne :
      (i j : ℕ)
      → i < pool.type
      → j < pool.type
      → i ≢ j
      → get_or pool.sizes i 0 ≢ get_or pool.sizes j 0
  sizes_ne i j l k n e = elim (Bool-cases (ltb i j)) [
    | inl h ↦ omega (arith, e, v.rises i j (ltb→lt i j h) k)
    | inr h ↦ omega (arith, e, v.rises j i (omega (arith, n, ltb→ge i j h)) l)
  ]

  -- A block whose trick has one size is in no list of another.
  pub sized-Absent :
      (i part j : ℕ)
      → i < pool.type
      → (pool.tricks (part - 8)).size ≡ get_or pool.sizes i 0
      → j < pool.type
      → i ≢ j
      → Absent part (get_or pool.free j [])
  sized-Absent i part j l e k n =
      used-Absent pool.tricks part (get_or pool.sizes j 0) (get_or pool.free j [])
        (inr (λ h. sizes_ne i j l k n (sym e ∙ h))) (v.idle j k)
