-- ===== src/Bytes/Index.antt =====
-- Lookups and writes in a list that is cut or joined.
use yifei.Prelude.{
  ℕ, zero, suc, ◌+◌, ◌≤◌, ◌<◌, ◌≡◌, refl, ap, List, [], ◌∷◌, ◌++◌, arith, length, take, drop,
  get_or, set,
}

module _ {ℓ} {A : Type ℓ} where
  pub drop-cons :
      (k : ℕ) (xs : List A) (d : A) → k < length xs → drop k xs ≡ get_or xs k d ∷ drop (suc k) xs
  drop-cons zero [] d h = absurd (omega arith)
  drop-cons zero (x ∷ xs) d h = refl
  drop-cons (suc k) [] d h = absurd (omega arith)
  drop-cons (suc k) (x ∷ xs) d h = drop-cons k xs d (omega arith)

  pub get_or-append_left :
      (xs ys : List A) (i : ℕ) (d : A) → i < length xs → get_or (xs ++ ys) i d ≡ get_or xs i d
  get_or-append_left [] ys i d h = absurd (omega arith)
  get_or-append_left (x ∷ xs) ys zero d h = refl
  get_or-append_left (x ∷ xs) ys (suc i) d h = get_or-append_left xs ys i d (omega arith)

  pub get_or-append_right :
      (xs ys : List A) (i : ℕ) (d : A) → get_or (xs ++ ys) (length xs + i) d ≡ get_or ys i d
  get_or-append_right [] ys i d = ap (λ k. get_or ys k d) (omega arith)
  get_or-append_right (x ∷ xs) ys i d =
      let e : length (x ∷ xs) + i ≡ suc (length xs + i) = omega arith in
      rw e (get_or-append_right xs ys i d)

  pub get_or-drop :
      (h : ℕ) (xs : List A) (i : ℕ) (d : A) → get_or (drop h xs) i d ≡ get_or xs (h + i) d
  get_or-drop zero xs i d = ap (λ k. get_or xs k d) (omega arith)
  get_or-drop (suc h) [] i d = refl
  get_or-drop (suc h) (x ∷ xs) i d =
      let e : suc h + i ≡ suc (h + i) = omega arith in rw e (get_or-drop h xs i d)

  pub get_or-take :
      (h : ℕ) (xs : List A) (i : ℕ) (d : A) → i < h → get_or (take h xs) i d ≡ get_or xs i d
  get_or-take zero xs i d p = absurd (omega arith)
  get_or-take (suc h) [] i d p = refl
  get_or-take (suc h) (x ∷ xs) zero d p = refl
  get_or-take (suc h) (x ∷ xs) (suc i) d p = get_or-take h xs i d (omega arith)

  pub set-append_left :
      (xs ys : List A) (i : ℕ) (w : A) → i < length xs → set (xs ++ ys) i w ≡ set xs i w ++ ys
  set-append_left [] ys i w h = absurd (omega arith)
  set-append_left (x ∷ xs) ys zero w h = refl
  set-append_left (x ∷ xs) ys (suc i) w h = ap (◌∷◌ x) (set-append_left xs ys i w (omega arith))

  pub set-append_right :
      (xs ys : List A) (i : ℕ) (w : A) → set (xs ++ ys) (length xs + i) w ≡ xs ++ set ys i w
  set-append_right [] ys i w = ap (λ k. set ys k w) (omega arith)
  set-append_right (x ∷ xs) ys i w =
      let e : length (x ∷ xs) + i ≡ suc (length xs + i) = omega arith in
      rw e (ap (◌∷◌ x) (set-append_right xs ys i w))

  pub drop-set_ge :
      (h : ℕ) (xs : List A) (i : ℕ) (w : A) → drop h (set xs (h + i) w) ≡ set (drop h xs) i w
  drop-set_ge zero xs i w = ap (λ k. set xs k w) (omega arith)
  drop-set_ge (suc h) [] i w = refl
  drop-set_ge (suc h) (x ∷ xs) i w =
      let e : suc h + i ≡ suc (h + i) = omega arith in rw e (drop-set_ge h xs i w)

  pub drop-set_lt : (h : ℕ) (xs : List A) (i : ℕ) (w : A) → i < h → drop h (set xs i w) ≡ drop h xs
  drop-set_lt zero xs i w p = absurd (omega arith)
  drop-set_lt (suc h) [] i w p = refl
  drop-set_lt (suc h) (x ∷ xs) zero w p = refl
  drop-set_lt (suc h) (x ∷ xs) (suc i) w p = drop-set_lt h xs i w (omega arith)

  pub take-set_ge : (h : ℕ) (xs : List A) (i : ℕ) (w : A) → h ≤ i → take h (set xs i w) ≡ take h xs
  take-set_ge zero xs i w p = refl
  take-set_ge (suc h) [] i w p = refl
  take-set_ge (suc h) (x ∷ xs) zero w p = absurd (omega arith)
  take-set_ge (suc h) (x ∷ xs) (suc i) w p = ap (◌∷◌ x) (take-set_ge h xs i w (omega arith))

  pub take-set_lt :
      (h : ℕ) (xs : List A) (i : ℕ) (w : A) → i < h → take h (set xs i w) ≡ set (take h xs) i w
  take-set_lt zero xs i w p = absurd (omega arith)
  take-set_lt (suc h) [] i w p = refl
  take-set_lt (suc h) (x ∷ xs) zero w p = refl
  take-set_lt (suc h) (x ∷ xs) (suc i) w p = ap (◌∷◌ x) (take-set_lt h xs i w (omega arith))
