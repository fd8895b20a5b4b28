-- ===== src/Array/Room.antt =====
-- The ways in which a push finds room for the new elements of an array.
use yifei.Prelude.{
  ℕ, ◌+◌, ◌*◌, ◌%◌, ◌^◌, ◌≤◌, ◌<◌, ◌≡◌, [], ◌∷◌, false, refl, sym, ap, ◌∙◌, arith, ◌⊎◌, inl, inr,
  true, Option, none, some, List, ◌&&◌, leb, ◌==◌, Bool-cases, ==→eq, lt→ltb, le→leb, leb→le,
}
use native.Mathlib.Nat.{mod-eq_of_lt}
use yifei.MemPool.{Block, Pool, palloc}
use yifei.Array.{Array, Pushed, last_of, end_of, set_last, copy, take_elements, move}

-- Where the room of the array is after a push of `n` elements: where it was, with the pool as it
-- was; or further, to the new end of what the pool's first block has handed out; or in the memory
-- that `yf_palloc` gave for as many bytes as the new room takes.
pub record Stays (array : Array) (pool : Pool) (p : Pushed) : Type 0 where
  pub same_elts : p.array.elts ≡ array.elts
  pub same_nalloc : p.array.nalloc ≡ array.nalloc
  pub same_pool : p.pool ≡ pool

pub record Extends (n : ℕ) (array : Array) (pool : Pool) (p : Pushed) : Type 0 where
  pub same_elts : p.array.elts ≡ array.elts
  pub more : p.array.nalloc ≡ array.nalloc + n
  pub was_last : array.elts + array.size * array.nalloc ≡ last_of pool.blocks
  pub is_last : p.array.elts + array.size * p.array.nalloc ≡ last_of p.pool.blocks
  pub inside : last_of p.pool.blocks ≤ end_of pool.blocks

pub record Moves (array : Array) (answers : List ℕ) (pool : Pool) (p : Pushed) : Type 0 where
  pub given :
      palloc true (array.size * p.array.nalloc) answers pool ≡ (some p.array.elts, p.pool, p.rest)

abbrev pub Backed : ℕ → Array → List ℕ → Pool → Pushed → Type 0
Backed n array answers pool p =
    Stays array pool p ⊎ (Extends n array pool p ⊎ Moves array answers pool p)

-- A push of `n` elements that succeeded: their address, the memory for them, and the bytes of the
-- elements before them.
pub record Grown (n : ℕ) (array : Array) (memory : ℕ → ℕ) (answers : List ℕ) (pool : Pool)
    (p : Pushed) : Type 0 where
  pub element : p.element ≡ some (p.array.elts + array.size * array.nelts)
  pub counted : p.array.nelts ≡ array.nelts + n
  pub room : array.nelts + n ≤ p.array.nalloc
  pub same_size : p.array.size ≡ array.size
  pub backed : Backed n array answers pool p
  pub kept :
      (i : ℕ) → i < array.size * array.nelts → p.memory (p.array.elts + i) ≡ memory (array.elts + i)

-- A push that failed, since `yf_palloc` gave nothing for `nalloc` elements.
pub record Refused (nalloc : ℕ) (array : Array) (memory : ℕ → ℕ) (answers : List ℕ) (pool : Pool)
    (p : Pushed) : Type 0 where
  pub refused : (palloc true (array.size * nalloc) answers pool).0 ≡ none
  pub element : p.element ≡ none
  pub same_array : p.array ≡ array
  pub same_memory : p.memory ≡ memory

abbrev pub Pushes : (n nalloc : ℕ) → Array → (ℕ → ℕ) → List ℕ → Pool → Pushed → Type 0
Pushes n nalloc array memory answers pool p =
    Grown n array memory answers pool p ⊎ Refused nalloc array memory answers pool p

copy-inside :
    (dst src n i : ℕ) (memory : ℕ → ℕ) → i < n → copy dst src n memory (dst + i) ≡ memory (src + i)
unfolding copy
copy-inside dst src n i memory h =
    rw (le→leb dst (dst + i) (omega arith), lt→ltb (dst + i) (dst + n) (omega arith))
      (ap (λ k. memory (src + k)) (omega arith))

-- The end of what the first block has handed out, when it moves within the block.
last_of-set_last : (l : ℕ) (bs : List Block) → l ≤ end_of bs → last_of (set_last l bs) ≡ l
unfolding last_of set_last end_of
last_of-set_last l [] h = omega arith
last_of-set_last l (b ∷ bs) h = refl

module _ (n : ℕ) (array : Array) (memory : ℕ → ℕ) (few : array.nelts + n < 2 ^ 32)
    (small : array.size * array.nelts < 2 ^ 64) (answers : List ℕ) (pool : Pool) where
  -- `n` elements at the end of an array whose elements are those of `array`.
  take_elements-Grown :
      (array' : Array) (memory' : ℕ → ℕ) (pool' : Pool) (rest : List ℕ)
      → array'.nelts ≡ array.nelts
      → array'.size ≡ array.size
      → array.nelts + n ≤ array'.nalloc
      → Backed n array answers pool (take_elements n array' memory' pool' rest)
      → ((i : ℕ)
          → i < array.size * array.nelts
          → memory' (array'.elts + i) ≡ memory (array.elts + i))
      → Grown n array memory answers pool (take_elements n array' memory' pool' rest)
  unfolding take_elements
  take_elements-Grown array' memory' pool' rest en es room backed kept = record {
    element =
        ap (λ b. some (array'.elts + b))
          (ap (λ m. array'.size * m % 2 ^ 64) en
            ∙ ap (λ m. m * array.nelts % 2 ^ 64) es
            ∙ mod-eq_of_lt small);
    counted = ap (λ m. (m + n) % 2 ^ 32) en ∙ mod-eq_of_lt few;
    room = room;
    same_size = es;
    backed = backed;
    kept = kept;
  }

  -- The array has room.
  pub stays-Grown :
      array.nelts + n ≤ array.nalloc
      → Grown n array memory answers pool (take_elements n array memory pool answers)
  unfolding take_elements
  stays-Grown room =
      take_elements-Grown array memory pool answers refl refl room
        (inl (record { same_elts = refl; same_nalloc = refl; same_pool = refl })) (λ i h. refl)

  -- The array is the last piece of the first block, which has room behind it.
  pub extends-Grown :
      (nalloc bytes : ℕ)
      → nalloc ≡ array.nalloc + n
      → bytes ≡ array.size * n
      → array.nelts ≤ array.nalloc
      → array.elts + array.size * array.nalloc ≡ last_of pool.blocks
      → last_of pool.blocks + bytes ≤ end_of pool.blocks
      → Grown n array memory answers pool (
          take_elements n
            (record array { nalloc = nalloc })
            memory
            (record pool { blocks = set_last (last_of pool.blocks + bytes) pool.blocks })
            answers)
  unfolding take_elements
  extends-Grown nalloc bytes e b full at_end room =
      let l = last_of-set_last (last_of pool.blocks + bytes) pool.blocks room in
      let product : array.size * nalloc ≡ array.size * array.nalloc + array.size * n =
        ap (λ m. array.size * m) e ∙ omega arith in
      take_elements-Grown (record array { nalloc = nalloc }) memory
        (record pool { blocks = set_last (last_of pool.blocks + bytes) pool.blocks }) answers refl
        refl (omega (arith, e))
        (inr (
          inl (record {
            same_elts = refl;
            more = e;
            was_last = at_end;
            is_last = omega (arith, l, product, b, at_end);
            inside = omega (arith, l);
          })))
        (λ i h. refl)

  pub move-Pushes :
      (nalloc used : ℕ) (found : Option ℕ × Pool × List ℕ)
      → palloc true (array.size * nalloc) answers pool ≡ found
      → array.nelts + n ≤ nalloc
      → used ≡ array.size * array.nelts
      → Pushes n nalloc array memory answers pool (move n nalloc used array memory found)
  unfolding move take_elements
  move-Pushes nalloc used (none, pool', rest) request room e = inr (record {
    refused = ap (λ r. r.0) request;
    element = refl;
    same_array = refl;
    same_memory = refl;
  })
  move-Pushes nalloc used (some new, pool', rest) request room e = inl (
      take_elements-Grown (record array { elts = new; nalloc = nalloc })
        (copy new array.elts used memory) pool' rest refl refl room
        (inr (inr (record { given = request })))
        (λ i h. copy-inside new array.elts used i memory (omega (arith, e))))

-- The test that an array is the last piece of the first block, with room behind it.
pub both : (x y l e : ℕ) → ((x == y) && leb l e) ≡ true → (x ≡ y) × (l ≤ e)
both x y l e h = elim (Bool-cases (x == y)) [
  | inl p ↦ (==→eq x y p, leb→le l e (sym (ap (λ c. c && leb l e) p) ∙ h))
  | inr p ↦ let no : true ≡ false = sym h ∙ ap (λ c. c && leb l e) p in absurd (cc no)
]
