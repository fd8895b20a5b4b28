-- ===== src/CircularBuf/Blocks.antt =====
-- The blocks of the ring in the order of the file, and the bytes that they hold.
use mathlib.Core.List.{flatten}
use yifei.Prelude.{
  ℕ, zero, suc, ◌+◌, ◌-◌, ◌*◌, ◌≤◌, ◌<◌, ◌≡◌, refl, sym, ap, ◌∙◌, List, [], ◌∷◌, ◌++◌, arith,
  length, take, drop, get_or, set, length-append, length-take, length-drop, take-append,
  drop-append, drop-of_length_le, take-of_length_le, ltb, inl, inr, Bool-cases, ltb→lt, ltb→ge,
}
use yifei.Bytes.{turn}
use yifei.Bytes.Index.{
  get_or-append_left, get_or-append_right, get_or-drop, get_or-take, set-append_left,
  set-append_right, drop-set_ge, drop-set_lt, take-set_ge, take-set_lt,
}
use yifei.CircularBuf.{CircularBuf, Block, cb_diff_r}
use yifei.CircularBuf.Valid.{AllSized}

abbrev pub blocks : CircularBuf → List Block
blocks cb = turn cb.head_index cb.buf

-- The bytes of all blocks, the head block's first.
abbrev pub space : CircularBuf → List ℕ
space cb = flatten (blocks cb)

-- Looking up and writing block `i` of the array is doing so at its distance from the head.
module _ {ℓ} {A : Type ℓ} (xs : List A) (h i : ℕ) (hin : h < length xs) (iin : i < length xs) where
  low_rot : i < h → (n : ℕ) → n ≡ length xs → cb_diff_r i h n ≡ length (drop h xs) + i
  unfolding cb_diff_r
  low_rot lt n e = ground (arith, length-drop h xs)

  high_rot : h ≤ i → cb_diff_r i h (length xs) ≡ i - h
  unfolding cb_diff_r
  high_rot le = ground arith

  pub get_or-turn : (d : A) → get_or (turn h xs) (cb_diff_r i h (length xs)) d ≡ get_or xs i d
  get_or-turn d = elim (Bool-cases (ltb i h)) [
    | inl lt ↦
        rw (low_rot (ltb→lt _ _ lt) (length xs) refl)
          (get_or-append_right (drop h xs) (take h xs) i d ∙ get_or-take h xs i d (ltb→lt _ _ lt))
    | inr ge ↦
        let le = ltb→ge _ _ ge in
        let e : h + (i - h) ≡ i = omega arith in
        rw (high_rot le) (
          get_or-append_left (drop h xs) (take h xs) (i - h) d (omega (arith, length-drop h xs))
          ∙ get_or-drop h xs (i - h) d
          ∙ ap (λ k. get_or xs k d) e)
  ]

  pub turn-set : (w : A) → turn h (set xs i w) ≡ set (turn h xs) (cb_diff_r i h (length xs)) w
  turn-set w = elim (Bool-cases (ltb i h)) [
    | inl lt ↦
        let p = ltb→lt _ _ lt in
        rw (low_rot p (length xs) refl, drop-set_lt h xs i w p, take-set_lt h xs i w p)
          (sym (set-append_right (drop h xs) (take h xs) i w))
    | inr ge ↦
        let le = ltb→ge _ _ ge in
        let e : i ≡ h + (i - h) = omega arith in
        rw (high_rot le, take-set_ge h xs i w le)
          (ap (λ k. drop h (set xs k w) ++ take h xs) e
            ∙ ap (λ z. z ++ take h xs) (drop-set_ge h xs (i - h) w)
            ∙ sym (
                set-append_left (drop h xs) (take h xs) (i - h) w
                  (omega (arith, length-drop h xs))))
  ]

pub length-turn {ℓ} : {A : Type ℓ} (h : ℕ) (xs : List A) → length (turn h xs) ≡ length xs
length-turn h xs =
    omega (arith, length-append (drop h xs) (take h xs), length-drop h xs, length-take h xs)

module _ (n : ℕ) where
  pub AllSized-append : (xs ys : List Block) → AllSized n xs → AllSized n ys → AllSized n (xs ++ ys)
  AllSized-append [] ys p q = q
  AllSized-append (x ∷ xs) ys p q = (p.0, AllSized-append xs ys p.1 q)

  AllSized-take : (k : ℕ) (xs : List Block) → AllSized n xs → AllSized n (take k xs)
  AllSized-take zero xs p = tt
  AllSized-take (suc k) [] p = tt
  AllSized-take (suc k) (x ∷ xs) p = (p.0, AllSized-take k xs p.1)

  AllSized-drop : (k : ℕ) (xs : List Block) → AllSized n xs → AllSized n (drop k xs)
  AllSized-drop zero xs p = p
  AllSized-drop (suc k) [] p = tt
  AllSized-drop (suc k) (x ∷ xs) p = AllSized-drop k xs p.1

  pub AllSized-set :
      (xs : List Block) (i : ℕ) (w : Block) → length w ≡ n → AllSized n xs → AllSized n (set xs i w)
  AllSized-set [] i w e p = tt
  AllSized-set (x ∷ xs) zero w e p = (e, p.1)
  AllSized-set (x ∷ xs) (suc i) w e p = (p.0, AllSized-set xs i w e p.1)

  pub AllSized-turn : (h : ℕ) (xs : List Block) → AllSized n xs → AllSized n (turn h xs)
  AllSized-turn h xs p =
      AllSized-append (drop h xs) (take h xs) (AllSized-drop h xs p) (AllSized-take h xs p)

  pub length-get_or :
      (xs : List Block) (i : ℕ) → AllSized n xs → i < length xs → length (get_or xs i []) ≡ n
  length-get_or [] i p h = absurd (omega arith)
  length-get_or (x ∷ xs) zero p h = p.0
  length-get_or (x ∷ xs) (suc i) p h = length-get_or xs i p.1 (omega arith)

  pub length-flatten : (xs : List Block) → AllSized n xs → length (flatten xs) ≡ length xs * n
  unfolding flatten
  length-flatten [] p = omega arith
  length-flatten (x ∷ xs) p =
      omega (arith, length-append x (flatten xs), length-flatten xs p.1, p.0)

  -- Whole blocks drop from the bytes as they drop from the list of blocks.
  pub drop-flatten :
      (k o : ℕ) (xs : List Block)
      → AllSized n xs
      → k ≤ length xs
      → drop (k * n + o) (flatten xs) ≡ drop o (flatten (drop k xs))
  unfolding flatten
  drop-flatten zero o xs p h = ap (λ m. drop m (flatten xs)) (omega arith)
  drop-flatten (suc k) o [] p h = absurd (omega arith)
  drop-flatten (suc k) o (x ∷ xs) p h =
      let c : suc k * n + o ≡ n + (k * n + o) = omega arith in
      let z : n + (k * n + o) - length x ≡ k * n + o = omega (arith, p.0) in
      rw
        (
          c,
          drop-append (n + (k * n + o)) x (flatten xs),
          z,
          drop-of_length_le (n + (k * n + o)) x (omega (arith, p.0)),
        )
        (drop-flatten k o xs p.1 (omega arith))

  take-flatten :
      (k : ℕ) (xs : List Block)
      → AllSized n xs
      → k ≤ length xs
      → take (k * n) (flatten xs) ≡ flatten (take k xs)
  unfolding flatten
  take-flatten zero xs p h = let e : 0 * n ≡ 0 = omega arith in rw e refl
  take-flatten (suc k) [] p h = absurd (omega arith)
  take-flatten (suc k) (x ∷ xs) p h =
      let c : suc k * n ≡ n + k * n = omega arith in
      let z : n + k * n - length x ≡ k * n = omega (arith, p.0) in
      rw
        (
          c,
          take-append (n + k * n) x (flatten xs),
          z,
          take-of_length_le (n + k * n) x (omega (arith, p.0)),
        )
        (ap (◌++◌ x) (take-flatten k xs p.1 (omega arith)))
