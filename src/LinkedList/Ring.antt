-- ===== src/LinkedList/Ring.antt =====
-- What the double list holds, and what its operations do to that.
use yifei.Prelude.{
  ℕ, suc, ◌≡◌, ◌≢◌, refl, sym, ap, ◌∙◌, subst, List, [], ◌∷◌, ◌++◌, false, length, ◌==◌, eq→==,
  ne→==, Absent, Distinct, Absent-snoc, Distinct-snoc, Absent-left, Absent-here, Absent-without,
  Distinct-without,
}
use yifei.LinkedList.{
  Links, null, update, set_next, set_prev, init_list_head, list_add, list_add_tail, unlink,
  list_del, list_linked, list_for_each,
}

-- The links lead from `a` through `xs` to `b`, and back.
unfoldable pub PathOf : Links → ℕ → List ℕ → ℕ → Type 0
PathOf s a [] b = (s.next a ≡ b) × (s.prev b ≡ a)
PathOf s a (x ∷ xs) b = ((s.next a ≡ x) × (s.prev x ≡ a)) × PathOf s x xs b

-- The list at `head` holds the parts `xs`.
pub record IsRing (s : Links) (head : ℕ) (xs : List ℕ) : Type 0 where
  pub path : PathOf s head xs head
  pub apart : Absent head xs
  pub distinct : Distinct xs
  pub real : (head ≢ null) × Absent null xs

update_self : (f : ℕ → ℕ) (p v : ℕ) → update f p v p ≡ v
unfolding update
update_self f p v = rw (eq→== p p refl) refl

update_ne : (f : ℕ → ℕ) (p v q : ℕ) → p ≢ q → update f p v q ≡ f q
unfolding update
update_ne f p v q n = rw (ne→== p q n) refl

ne_sym : {a b : ℕ} → a ≢ b → b ≢ a
ne_sym n e = n (sym e)

-- Writing `next` off a path, and `prev`.
PathOf-set_next :
    (s : Links) (c v a : ℕ) (xs : List ℕ) (b : ℕ)
    → c ≢ a
    → Absent c xs
    → PathOf s a xs b
    → PathOf (set_next c v s) a xs b
unfolding PathOf
PathOf-set_next s c v a [] b n f h = (update_ne s.next c v a n ∙ h.0, h.1)
PathOf-set_next s c v a (x ∷ xs) b n f h =
    ((update_ne s.next c v a n ∙ h.0.0, h.0.1), PathOf-set_next s c v x xs b f.0 f.1 h.1)

PathOf-set_prev :
    (s : Links) (c v a : ℕ) (xs : List ℕ) (b : ℕ)
    → c ≢ b
    → Absent c xs
    → PathOf s a xs b
    → PathOf (set_prev c v s) a xs b
unfolding PathOf
PathOf-set_prev s c v a [] b n f h = (h.0, update_ne s.prev c v b n ∙ h.1)
PathOf-set_prev s c v a (x ∷ xs) b n f h =
    ((h.0.0, update_ne s.prev c v x f.0 ∙ h.0.1), PathOf-set_prev s c v x xs b n f.1 h.1)

-- The part before the end of a path is one of the path's, and so is the part behind its start.
last-ne :
    (s : Links) (c a : ℕ) (xs : List ℕ) (b p : ℕ)
    → PathOf s a xs b
    → s.prev b ≡ p
    → c ≢ a
    → Absent c xs
    → c ≢ p
unfolding PathOf
last-ne s c a [] b p h e n f q = n (q ∙ sym e ∙ h.1)
last-ne s c a (x ∷ xs) b p h e n f q = last-ne s c x xs b p h.1 e f.0 f.1 q

first-ne :
    (s : Links) (c a : ℕ) (xs : List ℕ) (b p : ℕ)
    → PathOf s a xs b
    → s.next a ≡ p
    → c ≢ b
    → Absent c xs
    → c ≢ p
unfolding PathOf
first-ne s c a [] b p h e n f q = n (q ∙ sym e ∙ h.0)
first-ne s c a (x ∷ xs) b p h e n f q = f.0 (q ∙ sym e ∙ h.0.0)

PathOf-list_add :
    (s : Links) (n a : ℕ) (xs : List ℕ) (b p : ℕ)
    → PathOf s a xs b
    → s.prev b ≡ p
    → (n ≢ a) × Absent n xs × (n ≢ b)
    → Absent a xs × Absent b xs × Distinct xs
    → PathOf (list_add n p b s) a (xs ++ (n ∷ [])) b
unfolding PathOf list_add
PathOf-list_add s n a [] b p h e new apart =
    let pa : p ≡ a = sym e ∙ h.1 in
    let np : p ≢ n = λ q. new.0 (sym q ∙ pa) in
    (
      (ap (update (update s.next n b) p n) (sym pa) ∙ update_self _ p n, update_self _ n p ∙ pa),
      (
        update_ne _ p n n np ∙ update_self s.next n b,
        update_ne _ n p b new.2 ∙ update_self s.prev b n,
      ),
    )
PathOf-list_add s n a (x ∷ xs) b p h e new apart = (
  (
    update_ne _ p n a (ne_sym (last-ne s a x xs b p h.1 e apart.0.0 apart.0.1))
        ∙ update_ne s.next n b a new.0
        ∙ h.0.0,
    update_ne _ n p x new.1.0 ∙ update_ne s.prev b n x apart.1.0 ∙ h.0.1,
  ),
  PathOf-list_add s n x xs b p h.1 e (new.1.0, new.1.1, new.2) (apart.2.0, apart.1.1, apart.2.1),
)

-- When the links at `head` hold the list `xs` and `n` is neither `NULL`, the head nor in the
-- list, after `yf_list_add_tail` they hold `xs` with `n` behind it.
pub list_add_tail-IsRing :
    (s : Links) (head n : ℕ) (xs : List ℕ)
    → IsRing s head xs
    → n ≢ null
    → n ≢ head
    → Absent n xs
    → IsRing (list_add_tail n head s) head (xs ++ (n ∷ []))
unfolding list_add_tail
list_add_tail-IsRing s head n xs r real out f = record {
  path =
      PathOf-list_add s n head xs head (s.prev head) r.path refl (out, f, out)
        (r.apart, r.apart, r.distinct);
  apart = Absent-snoc head xs n r.apart (ne_sym out);
  distinct = Distinct-snoc xs n r.distinct f;
  real = (r.real.0, Absent-snoc null xs n r.real.1 (ne_sym real));
}

-- The parts of a list with `x` between `xs` and `ys`.
module _ (x : ℕ) (ys : List ℕ) where
  before-ne :
      (s : Links) (c a : ℕ) (xs : List ℕ) (b p : ℕ)
      → PathOf s a (xs ++ x ∷ ys) b
      → s.prev x ≡ p
      → c ≢ a
      → Absent c xs
      → c ≢ p
  unfolding PathOf
  before-ne s c a [] b p h e n f q = n (q ∙ sym e ∙ h.0.1)
  before-ne s c a (y ∷ xs) b p h e n f q = before-ne s c y xs b p h.1 e f.0 f.1 q

  behind-ne :
      (s : Links) (c a : ℕ) (xs : List ℕ) (b p : ℕ)
      → PathOf s a (xs ++ x ∷ ys) b
      → s.next x ≡ p
      → c ≢ b
      → Absent c ys
      → c ≢ p
  unfolding PathOf
  behind-ne s c a [] b p h e n f = first-ne s c x ys b p h.1 e n f
  behind-ne s c a (y ∷ xs) b p h e n f = behind-ne s c y xs b p h.1 e n f

  -- `yf_list_del` without its test for `NULL`.
  abbrev cut : ℕ → ℕ → Links → Links
  cut p q s = set_prev x null (set_next x null (set_next p q (set_prev q p s)))

  -- The links of `cut` away from the places that it writes.
  cut-next : (p q c : ℕ) (s : Links) → c ≢ x → c ≢ p → (cut p q s).next c ≡ s.next c
  cut-next p q c s n m =
      update_ne (update s.next p q) x null c (ne_sym n) ∙ update_ne s.next p q c (ne_sym m)

  cut-prev : (p q c : ℕ) (s : Links) → c ≢ x → c ≢ q → (cut p q s).prev c ≡ s.prev c
  cut-prev p q c s n m =
      update_ne (update s.prev q p) x null c (ne_sym n) ∙ update_ne s.prev q p c (ne_sym m)

  cut-joins :
      (p q : ℕ) (s : Links) → p ≢ x → q ≢ x → ((cut p q s).next p ≡ q) × ((cut p q s).prev q ≡ p)
  cut-joins p q s n m = (
    update_ne (update s.next p q) x null p (ne_sym n) ∙ update_self s.next p q,
    update_ne (update s.prev q p) x null q (ne_sym m) ∙ update_self s.prev q p,
  )

  -- The rest behind `x` stays.
  cut-rest :
      (s : Links) (p q a : ℕ) (zs : List ℕ) (b : ℕ)
      → PathOf s a zs b
      → (a ≢ x) × (a ≢ p)
      → Absent x zs × Absent p zs × Absent q zs
      → (b ≢ x) × (b ≢ q)
      → PathOf (cut p q s) a zs b
  cut-rest s p q a zs b h na f nb = PathOf-set_prev _ x null a zs b (ne_sym nb.0) f.0 (
      PathOf-set_next _ x null a zs b (ne_sym na.0) f.0 (
        PathOf-set_next _ p q a zs b (ne_sym na.1) f.1
          (PathOf-set_prev s q p a zs b (ne_sym nb.1) f.2 h)))

  cut-here :
      (s : Links) (a : ℕ) (zs : List ℕ) (b p q : ℕ)
      → p ≡ a
      → s.next x ≡ q
      → PathOf s x zs b
      → ((a ≢ x) × Absent a zs) × ((b ≢ x) × Absent b zs) × (Absent x zs × Distinct zs)
      → PathOf (cut p q s) a zs b
  unfolding PathOf
  cut-here s a [] b p q pa eq h f =
      let qb : q ≡ b = sym eq ∙ h.0 in
      let j = cut-joins p q s (λ e. f.0.0 (sym pa ∙ e)) (λ e. f.1.0 (sym qb ∙ e)) in
      (ap (cut p q s).next (sym pa) ∙ j.0 ∙ qb, ap (cut p q s).prev (sym qb) ∙ j.1 ∙ pa)
  cut-here s a (z ∷ zs) b p q pa eq h f =
      let qz : q ≡ z = sym eq ∙ h.0.0 in
      let j = cut-joins p q s (λ e. f.0.0 (sym pa ∙ e)) (λ e. f.2.0.0 (sym e ∙ qz)) in
      (
        (ap (cut p q s).next (sym pa) ∙ j.0 ∙ qz, ap (cut p q s).prev (sym qz) ∙ j.1 ∙ pa),
        cut-rest s p q z zs b h.1 (ne_sym f.2.0.0, λ e. f.0.1.0 (sym pa ∙ sym e))
            (
              f.2.0.1,
              subst (λ k. Absent k zs) (sym pa) f.0.1.1,
              subst (λ k. Absent k zs) (sym qz) f.2.1.0,
            )
            (f.1.0, λ e. f.1.1.0 (e ∙ qz)),
      )

  PathOf-cut :
      (s : Links) (a : ℕ) (xs : List ℕ) (b p q : ℕ)
      → PathOf s a (xs ++ x ∷ ys) b
      → s.prev x ≡ p
      → s.next x ≡ q
      → Absent a (xs ++ x ∷ ys) × Absent b (xs ++ x ∷ ys) × Distinct (xs ++ x ∷ ys)
      → PathOf (cut p q s) a (xs ++ ys) b
  unfolding PathOf
  PathOf-cut s a [] b p q h ep eq f = cut-here s a ys b p q (sym ep ∙ h.0.1) eq h.1 (f.0, f.1, f.2)
  PathOf-cut s a (y ∷ xs) b p q h ep eq f = (
    (
      cut-next p q a s (Absent-here x ys a xs f.0.1).0
            (before-ne s a y xs b p h.1 ep f.0.0 (Absent-left x ys a xs f.0.1))
          ∙ h.0.0,
      cut-prev p q y s (Absent-here x ys y xs f.2.0).0
            (behind-ne s y y xs b q h.1 eq (ne_sym f.1.0) (Absent-here x ys y xs f.2.0).1)
          ∙ h.0.1,
    ),
    PathOf-cut s y xs b p q h.1 ep eq (f.2.0, f.1.1, f.2.1),
  )

  -- When the links at `head` hold a list with the part `x` in it, after `yf_list_del` they hold
  -- the list without it, and `x` is not linked.
  pub list_del-IsRing :
      (s : Links) (head : ℕ) (xs : List ℕ)
      → IsRing s head (xs ++ x ∷ ys)
      → IsRing (list_del x s) head (xs ++ ys) × (list_linked x (list_del x s) ≡ false)
  unfolding list_del unlink list_linked
  list_del-IsRing s head xs r =
      let p = s.prev x in
      let q = s.next x in
      let zeros = Absent-here x ys null xs r.real.1 in
      let pn =
        before-ne s null head xs head p r.path refl (ne_sym r.real.0)
          (Absent-left x ys null xs r.real.1) in
      let qn = behind-ne s null head xs head q r.path refl (ne_sym r.real.0) zeros.1 in
      rw (ne→== p null (ne_sym pn), ne→== q null (ne_sym qn))
        (
          record {
            path = PathOf-cut s head xs head p q r.path refl refl (r.apart, r.apart, r.distinct);
            apart = Absent-without x ys head xs r.apart;
            distinct = Distinct-without x ys xs r.distinct;
            real = (r.real.0, Absent-without x ys null xs r.real.1);
          },
          rw (update_self (update s.prev q p) x null) refl,
        )

list_for_each-PathOf :
    (s : Links) (a : ℕ) (xs : List ℕ) (b : ℕ)
    → PathOf s a xs b
    → Absent b xs
    → list_for_each (suc (length xs)) (s.next a) b s ≡ xs
unfolding PathOf list_for_each
list_for_each-PathOf s a [] b h f = rw (eq→== (s.next a) b h.0) refl
list_for_each-PathOf s a (x ∷ xs) b h f =
    let here : (s.next a == b) ≡ false = ne→== (s.next a) b (λ e. f.0 (sym e ∙ h.0.0)) in
    rw here (
      ap (λ k. k ∷ list_for_each (suc (length xs)) (s.next k) b s) h.0.0
      ∙ ap (λ k. x ∷ k) (list_for_each-PathOf s x xs b h.1 f.1))

-- When the links at `head` hold the list `xs`, the loop of `yf_list_for_each` goes through the
-- parts of `xs` in their order, and one round more than there are parts is enough.
pub list_for_each-IsRing :
    (s : Links) (head : ℕ) (xs : List ℕ)
    → IsRing s head xs
    → list_for_each (suc (length xs)) (s.next head) head s ≡ xs
list_for_each-IsRing s head xs r = list_for_each-PathOf s head xs head r.path r.apart

pub init_list_head-IsRing :
    (s : Links) (head : ℕ) → head ≢ null → IsRing (init_list_head head s) head []
unfolding init_list_head PathOf
init_list_head-IsRing s head n = record {
  path = (update_self s.next head head, update_self s.prev head head);
  apart = tt;
  distinct = tt;
  real = (n, tt);
}
