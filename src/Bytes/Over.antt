-- ===== src/Bytes/Over.antt =====
-- Laws of writing over a part of a list.
use yifei.Prelude.{
  ℕ, zero, suc, ◌+◌, ◌-◌, ◌≤◌, ◌≡◌, refl, sym, ap, ap₂, ◌∙◌, max, List, [], ◌∷◌, ◌++◌, arith,
  length, take, drop, length-append, length-take, length-drop, take-append_left, take-append_right,
  drop-append_left, drop-append_right, drop-drop, take-nil, append_assoc,
}
use yifei.Bytes.{over, memcpy}

module _ {ℓ} {A : Type ℓ} where
  over-zero : (ys xs : List A) → over ys 0 xs ≡ xs ++ drop (length xs) ys
  unfolding over
  over-zero ys xs = ap (λ k. xs ++ drop k ys) (let e : 0 + length xs ≡ length xs = omega arith in e)

  over-cons :
      (y : A) (ys : List A) (p : ℕ) (xs : List A) → over (y ∷ ys) (suc p) xs ≡ y ∷ over ys p xs
  unfolding over
  over-cons y ys p xs = let e : suc p + length xs ≡ suc (p + length xs) = omega arith in rw e refl

  pub length-over :
      (ys : List A) (p : ℕ) (xs : List A)
      → p ≤ length ys
      → length (over ys p xs) ≡ max (length ys) (p + length xs)
  unfolding over
  length-over ys p xs h = omega (
    arith,
    length-append (take p ys) (xs ++ drop (p + length xs) ys),
    length-append xs (drop (p + length xs) ys),
    length-take p ys,
    length-drop (p + length xs) ys,
  )

  -- Writing in the left of two parts.
  pub over-append_left :
      (ys zs : List A) (p : ℕ) (xs : List A)
      → p + length xs ≤ length ys
      → over (ys ++ zs) p xs ≡ over ys p xs ++ zs
  unfolding over
  over-append_left ys zs p xs h =
      rw (take-append_left p ys zs (omega arith), drop-append_left (p + length xs) ys zs h)
        (ap (◌++◌ (take p ys)) (sym (append_assoc xs (drop (p + length xs) ys) zs))
          ∙ sym (append_assoc (take p ys) (xs ++ drop (p + length xs) ys) zs))

  pub over-append_right :
      (ys zs : List A) (p : ℕ) (xs : List A)
      → over (ys ++ zs) (length ys + p) xs ≡ ys ++ over zs p xs
  over-append_right [] zs p xs = ap (λ k. over zs k xs) (omega arith)
  over-append_right (y ∷ ys) zs p xs =
      let e : length (y ∷ ys) + p ≡ suc (length ys + p) = omega arith in
      rw e (over-cons y (ys ++ zs) (length ys + p) xs ∙ ap (◌∷◌ y) (over-append_right ys zs p xs))

  -- Two writes one behind the other are one write.
  pub over-over :
      (ys : List A) (p : ℕ) (xs zs : List A)
      → p ≤ length ys
      → over (over ys p xs) (p + length xs) zs ≡ over ys p (xs ++ zs)
  over-over ys zero xs zs h =
      let e : 0 + length xs ≡ length xs + 0 = omega arith in
      rw (e, over-zero ys xs)
        (over-append_right xs (drop (length xs) ys) 0 zs
          ∙ ap (◌++◌ xs) (
              over-zero (drop (length xs) ys) zs
              ∙ ap (◌++◌ zs) (
                  drop-drop (length zs) (length xs) ys
                  ∙ ap (λ k. drop k ys) (sym (length-append xs zs))))
          ∙ sym (append_assoc xs zs (drop (length (xs ++ zs)) ys))
          ∙ sym (over-zero ys (xs ++ zs)))
  over-over [] (suc p) xs zs h = absurd (omega arith)
  over-over (y ∷ ys) (suc p) xs zs h =
      let e : suc p + length xs ≡ suc (p + length xs) = omega arith in
      rw (over-cons y ys p xs, e)
        (over-cons y (over ys p xs) (p + length xs) zs
          ∙ ap (◌∷◌ y) (over-over ys p xs zs (omega arith))
          ∙ sym (over-cons y ys p (xs ++ zs)))

  pub drop-over :
      (k : ℕ) (ys : List A) (p : ℕ) (xs : List A)
      → k ≤ length ys
      → drop k (over ys (k + p) xs) ≡ over (drop k ys) p xs
  drop-over zero ys p xs h = ap (λ m. over ys m xs) (omega arith)
  drop-over (suc k) [] p xs h = absurd (omega arith)
  drop-over (suc k) (y ∷ ys) p xs h =
      let e : suc k + p ≡ suc (k + p) = omega arith in
      rw (e, over-cons y ys (k + p) xs) (drop-over k ys p xs (omega arith))

  drop-take : (k f : ℕ) (ys : List A) → drop k (take f ys) ≡ take (f - k) (drop k ys)
  drop-take zero f ys = ap (λ m. take m ys) (omega arith)
  drop-take (suc k) zero ys = let e : 0 - suc k ≡ 0 = omega arith in rw e refl
  drop-take (suc k) (suc f) [] = sym (take-nil (suc f - suc k))
  drop-take (suc k) (suc f) (y ∷ ys) =
      let e : suc f - suc k ≡ f - k = omega arith in rw e (drop-take k f ys)

  pub take-over :
      (f : ℕ) (ys : List A) (p : ℕ) (xs : List A)
      → p ≤ f
      → f ≤ length ys
      → take (max f (p + length xs)) (over ys p xs) ≡ over (take f ys) p xs
  take-over f ys zero xs h g =
      let e : max f (0 + length xs) - length xs ≡ f - length xs = omega arith in
      rw (over-zero ys xs, over-zero (take f ys) xs)
        (take-append_right (max f (0 + length xs)) xs (drop (length xs) ys) (omega arith)
          ∙ ap (λ k. xs ++ take k (drop (length xs) ys)) e
          ∙ ap (◌++◌ xs) (sym (drop-take (length xs) f ys)))
  take-over f [] (suc p) xs h g = absurd (omega arith)
  take-over zero (y ∷ ys) (suc p) xs h g = absurd (omega arith)
  take-over (suc f) (y ∷ ys) (suc p) xs h g =
      let e : max (suc f) (suc p + length xs) ≡ suc (max f (p + length xs)) = omega arith in
      rw (e, over-cons y ys p xs, over-cons y (take f ys) p xs)
        (ap (◌∷◌ y) (take-over f ys p xs (omega arith) (omega arith)))

  -- What stands before a write stays.
  pub take-over_self :
      (k : ℕ) (ys : List A) (p : ℕ) (xs : List A)
      → k ≤ p
      → p ≤ length ys
      → take k (over ys p xs) ≡ take k ys
  take-over_self zero ys p xs h g = refl
  take-over_self (suc k) ys zero xs h g = absurd (omega arith)
  take-over_self (suc k) [] (suc p) xs h g = absurd (omega arith)
  take-over_self (suc k) (y ∷ ys) (suc p) xs h g =
      rw (over-cons y ys p xs) (ap (◌∷◌ y) (take-over_self k ys p xs (omega arith) (omega arith)))

  -- What stands behind a write stays.
  pub drop-over_self :
      (k : ℕ) (ys : List A) (p : ℕ) (xs : List A)
      → p + length xs ≤ k
      → p ≤ length ys
      → drop k (over ys p xs) ≡ drop k ys
  drop-over_self k ys zero xs h g = rw (over-zero ys xs) (
      drop-append_right k xs (drop (length xs) ys) (omega arith)
      ∙ drop-drop (k - length xs) (length xs) ys
      ∙ ap (λ m. drop m ys) (let e : length xs + (k - length xs) ≡ k = omega arith in e))
  drop-over_self k [] (suc p) xs h g = absurd (omega arith)
  drop-over_self zero (y ∷ ys) (suc p) xs h g = absurd (omega arith)
  drop-over_self (suc k) (y ∷ ys) (suc p) xs h g =
      rw (over-cons y ys p xs) (drop-over_self k ys p xs (omega arith) (omega arith))

  pub take-split : (a b : ℕ) (xs : List A) → take a xs ++ take b (drop a xs) ≡ take (a + b) xs
  take-split zero b xs = ap (λ k. take k xs) (omega arith)
  take-split (suc a) b [] = let e : suc a + b ≡ suc (a + b) = omega arith in rw e (take-nil b)
  take-split (suc a) b (x ∷ xs) =
      let e : suc a + b ≡ suc (a + b) = omega arith in rw e (ap (◌∷◌ x) (take-split a b xs))

pub memcpy-over :
    (b : List ℕ) (o m : ℕ) (src : List ℕ)
    → m ≤ length src
    → memcpy b o src m ≡ over b o (take m src)
unfolding over
memcpy-over b o m src l =
    let q : length (take m src) ≡ m = omega (arith, length-take m src) in
    ap (λ k. take o b ++ (take m src ++ drop (o + k) b)) (sym q)

-- Writing over a file that stands between `h` and `t` of a ring, from place `c` on.
pub file-over :
    (s e : List ℕ) (h t c : ℕ) (xs : List ℕ)
    → h ≤ c
    → c ≤ t
    → t ≤ length s
    → take (max t (c + length xs) - h) (drop h (over (s ++ e) c xs))
      ≡ over (take (t - h) (drop h s)) (c - h) xs
file-over s e h t c xs p q r =
    let c_is : h + (c - h) ≡ c = omega arith in
    let m : max t (c + length xs) - h ≡ max (t - h) (c - h + length xs) = omega arith in
    ap (λ k. take (max t (c + length xs) - h) (drop h (over (s ++ e) k xs))) (sym c_is)
    ∙ ap₂ take m (
        drop-over h (s ++ e) (c - h) xs (omega (arith, length-append s e))
        ∙ ap (λ d. over d (c - h) xs) (drop-append_left h s e (omega arith)))
    ∙ take-over (t - h) (drop h s ++ e) (c - h) xs (omega arith)
        (omega (arith, length-append (drop h s) e, length-drop h s))
    ∙ ap (λ d. over d (c - h) xs)
        (take-append_left (t - h) (drop h s) e (omega (arith, length-drop h s)))
