-- ===== src/SlabPool/Swap.antt =====
-- Two items of an array swapped, and the numbers among the first items.
use yifei.Prelude.{
  ℕ, suc, ◌≤◌, ◌<◌, ◌≡◌, ◌≢◌, ◌⊎◌, refl, sym, ap, ◌∙◌, arith, List, ◌==◌, get_or, set, length,
  length-set, get_or-set_self, get_or-set_ne, Bool-cases, inl, inr, ==→eq, ==→ne,
}
use yifei.SlabPool.{swap}

-- Where the item at `q` stood before the items at `a` and `b` were swapped.
abbrev pub From : (a b q q' : ℕ) → Type 0
From a b q q' = ((q ≡ a) × (q' ≡ b)) ⊎ (((q ≡ b) × (q' ≡ a)) ⊎ ((q ≢ a) × (q ≢ b) × (q' ≡ q)))

pub length-swap : (xs : List ℕ) (a b : ℕ) → length (swap xs a b) ≡ length xs
unfolding swap
length-swap xs a b =
    length-set (set xs a (get_or xs b 0)) b (get_or xs a 0) ∙ length-set xs a (get_or xs b 0)

swap-From :
    (xs : List ℕ) (a b q : ℕ)
    → a < length xs
    → b < length xs
    → (q' : ℕ) × (get_or (swap xs a b) q 0 ≡ get_or xs q' 0) × From a b q q'
unfolding swap
swap-From xs a b q l k =
    let once = set xs a (get_or xs b 0) in
    elim (Bool-cases (b == q)) [
      | inl e ↦
          let here = ==→eq b q e in
          (
            a,
            ap (λ i. get_or (set once b (get_or xs a 0)) i 0) (sym here)
                ∙ get_or-set_self once b (get_or xs a 0) 0
                    (omega (arith, length-set xs a (get_or xs b 0))),
            inr (inl (sym here, refl)),
          )
      | inr n ↦
          let off = get_or-set_ne once b q (get_or xs a 0) 0 (==→ne b q n) in
          elim (Bool-cases (a == q)) [
            | inl e ↦
                let here = ==→eq a q e in
                (
                  b,
                  off
                      ∙ ap (λ i. get_or once i 0) (sym here)
                      ∙ get_or-set_self xs a (get_or xs b 0) 0 l,
                  inl (sym here, refl),
                )
            | inr m ↦ (
              q,
              off ∙ get_or-set_ne xs a q (get_or xs b 0) 0 (==→ne a q m),
              inr (inr ((λ h. ==→ne a q m (sym h)), (λ h. ==→ne b q n (sym h)), refl)),
            )
          ]
    ]

-- `x` is among the first `n` items.
abbrev pub Among : ℕ → ℕ → List ℕ → Type 0
Among x n xs = (q : ℕ) × (q < n) × (get_or xs q 0 ≡ x)

-- The item at `p` is below those behind it, up to the count.
abbrev pub Below : ℕ → ℕ → List ℕ → Type 0
Below p n xs = (q : ℕ) → p < q → q < n → get_or xs p 0 < get_or xs q 0

pub swap_left :
    (xs : List ℕ) (a b : ℕ) → b ≢ a → a < length xs → get_or (swap xs a b) a 0 ≡ get_or xs b 0
unfolding swap
swap_left xs a b n l =
    get_or-set_ne (set xs a (get_or xs b 0)) b a (get_or xs a 0) 0 n
    ∙ get_or-set_self xs a (get_or xs b 0) 0 l

pub swap_right : (xs : List ℕ) (a b : ℕ) → b < length xs → get_or (swap xs a b) b 0 ≡ get_or xs a 0
unfolding swap
swap_right xs a b k =
    get_or-set_self (set xs a (get_or xs b 0)) b (get_or xs a 0) 0
      (omega (arith, length-set xs a (get_or xs b 0)))

pub swap_other :
    (xs : List ℕ) (a b q : ℕ) → a ≢ q → b ≢ q → get_or (swap xs a b) q 0 ≡ get_or xs q 0
unfolding swap
swap_other xs a b q n m =
    get_or-set_ne (set xs a (get_or xs b 0)) b q (get_or xs a 0) 0 m
    ∙ get_or-set_ne xs a q (get_or xs b 0) 0 n

pub swap-Below :
    (xs : List ℕ) (a b p n n' : ℕ)
    → n' ≤ length xs
    → a < n'
    → b < n'
    → p < a
    → p < b
    → n ≤ n'
    → Below p n' xs
    → Below p n (swap xs a b)
swap-Below xs a b p n n' l a' b' pa pb le h q k m =
    let (q', e, o) = swap-From xs a b q (omega arith) (omega arith) in
    let at_p =
      swap_other xs a b p (λ z. absurd (omega (arith, z))) (λ z. absurd (omega (arith, z))) in
    elim o [
      | inl (x, y) ↦ omega (arith, at_p, e, h q' (omega (arith, y)) (omega (arith, y)))
      | inr (inl (x, y)) ↦ omega (arith, at_p, e, h q' (omega (arith, y)) (omega (arith, y)))
      | inr (inr (x, y, z)) ↦ omega (arith, at_p, e, h q' (omega (arith, z)) (omega (arith, z)))
    ]

-- The same numbers are among the first items of both.
abbrev pub SameItems : ℕ → List ℕ → ℕ → List ℕ → Type 0
SameItems n xs m ys = (x : ℕ) → (Among x n xs → Among x m ys) × (Among x m ys → Among x n xs)

pub SameItems-trans :
    (n : ℕ) (xs : List ℕ) (m : ℕ) (ys : List ℕ) (k : ℕ) (zs : List ℕ)
    → SameItems n xs m ys
    → SameItems m ys k zs
    → SameItems n xs k zs
SameItems-trans n xs m ys k zs f g x = (λ a. (g x).0 ((f x).0 a), λ a. (f x).1 ((g x).1 a))

swap-swap :
    (xs : List ℕ) (a b q : ℕ)
    → a < length xs
    → b < length xs
    → (q' : ℕ) × (get_or xs q 0 ≡ get_or (swap xs a b) q' 0) × From a b q q'
swap-swap xs a b q l k = elim (Bool-cases (a == q)) [
  | inl e ↦
      let here = ==→eq a q e in
      (b, ap (λ i. get_or xs i 0) (sym here) ∙ sym (swap_right xs a b k), inl (sym here, refl))
  | inr n ↦ elim (Bool-cases (b == q)) [
    | inl e ↦
        let here = ==→eq b q e in
        (
          a,
          ap (λ i. get_or xs i 0) (sym here)
              ∙ sym (swap_left xs a b (λ z. ==→ne a q n (sym z ∙ here)) l),
          inr (inl (sym here, refl)),
        )
    | inr m ↦ (
      q,
      sym (swap_other xs a b q (==→ne a q n) (==→ne b q m)),
      inr (inr ((λ h. ==→ne a q n (sym h)), (λ h. ==→ne b q m (sym h)), refl)),
    )
  ]
]

-- A swap of two items among the first `n`.
pub swap-SameItems :
    (xs : List ℕ) (a b n : ℕ) → n ≤ length xs → a < n → b < n → SameItems n xs n (swap xs a b)
swap-SameItems xs a b n l h k x = (
  (λ r.
      let (q', e, o) = swap-swap xs a b r.0 (omega arith) (omega arith) in
      (q', inside r.0 q' r.1 o, sym e ∙ r.2)),
  (λ r.
      let (q', e, o) = swap-From xs a b r.0 (omega arith) (omega arith) in
      (q', inside r.0 q' r.1 o, sym e ∙ r.2)),
)
  where
    inside : (q q' : ℕ) → q < n → From a b q q' → q' < n
    inside q q' c (inl (u, v)) = omega (arith, v)
    inside q q' c (inr (inl (u, v))) = omega (arith, v)
    inside q q' c (inr (inr (u, v, w))) = omega (arith, w)

-- The last item may go when it is among those before it.
pub last-SameItems :
    (xs : List ℕ) (i n : ℕ) → i < n → get_or xs i 0 ≡ get_or xs n 0 → SameItems (suc n) xs n xs
last-SameItems xs i n l e x = (
  (λ r. elim (Bool-cases (r.0 == n)) [
    | inl h ↦ (i, l, e ∙ ap (λ k. get_or xs k 0) (sym (==→eq r.0 n h)) ∙ r.2)
    | inr h ↦ (r.0, omega (arith, r.1, ==→ne r.0 n h), r.2)
  ]),
  (λ r. (r.0, omega (arith, r.1), r.2)),
)
