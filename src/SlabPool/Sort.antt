-- ===== src/SlabPool/Sort.antt =====
-- The sizes of a slab pool, sorted and without duplicates.
use yifei.Prelude.{
  ℕ, zero, suc, ◌+◌, ◌-◌, ◌≤◌, ◌<◌, ◌≡◌, refl, sym, ◌∙◌, subst, arith, List, ltb, ◌==◌, get_or,
  length, Bool-cases, inl, inr, ltb→lt, ltb→ge, ==→eq, ==→ne, ne→==,
}
use yifei.SlabPool.{swap, uniq_pass, sort_uniq}
use yifei.SlabPool.Swap.{
  length-swap, Below, swap_left, swap_right, swap_other, swap-Below, SameItems, SameItems-trans,
  swap-SameItems, last-SameItems,
}

-- The loop at `i` and `j`, with `n` items from `j` on.
record Mid (i j n : ℕ) (xs : List ℕ) : Type 0 where
  apart : i < j
  inside : j + n ≤ length xs
  least : (q : ℕ) → i < q → q < j → get_or xs i 0 < get_or xs q 0
  earlier : (p : ℕ) → p < i → Below p (j + n) xs

swap_less :
    (i j n : ℕ) (xs : List ℕ)
    → Mid i j (suc n) xs
    → get_or xs j 0 < get_or xs i 0
    → Mid i (j + 1) n (swap xs j i)
swap_less i j n xs m lt =
    let inside = m.inside in
    let apart = m.apart in
    record {
      apart = omega arith;
      inside = omega (arith, length-swap xs j i);
      least = λ q h k.
          let at_i = swap_right xs j i (omega arith) in
          elim (Bool-cases (j == q)) [
            | inl e ↦
                let at_j = swap_left xs j i (λ z. absurd (omega (arith, z))) (omega arith) in
                subst (λ r. get_or (swap xs j i) i 0 < get_or (swap xs j i) r 0) (==→eq j q e)
                  (omega (arith, at_i, at_j))
            | inr n ↦
                let at_q = swap_other xs j i q (==→ne j q n) (λ z. absurd (omega (arith, z))) in
                omega (arith, at_i, at_q, m.least q h (omega (arith, ==→ne j q n)))
          ];
      earlier = λ p h.
          swap-Below xs j i p (j + 1 + n) (j + suc n) inside (omega arith) (omega arith)
            (omega arith) h (omega arith) (m.earlier p h);
    }

step_over :
    (i j n : ℕ) (xs : List ℕ)
    → Mid i j (suc n) xs
    → get_or xs i 0 < get_or xs j 0
    → Mid i (j + 1) n xs
step_over i j n xs m lt = record {
  apart = omega (arith, m.apart);
  inside = omega (arith, m.inside);
  least = λ q h k. elim (Bool-cases (j == q)) [
    | inl e ↦ subst (λ r. get_or xs i 0 < get_or xs r 0) (==→eq j q e) lt
    | inr n ↦ m.least q h (omega (arith, ==→ne j q n))
  ];
  earlier = λ p h q k l. m.earlier p h q k (omega arith);
}

drop_last : (i j n : ℕ) (xs : List ℕ) → Mid i j (suc n) xs → Mid i j n (swap xs j (j + n))
drop_last i j n xs m =
    let inside = m.inside in
    let apart = m.apart in
    record {
      apart = apart;
      inside = omega (arith, length-swap xs j (j + n));
      least = λ q h k.
          let at_i =
            swap_other xs j (j + n) i (λ z. absurd (omega (arith, z)))
              (λ z. absurd (omega (arith, z))) in
          let at_q =
            swap_other xs j (j + n) q (λ z. absurd (omega (arith, z)))
              (λ z. absurd (omega (arith, z))) in
          omega (arith, at_i, at_q, m.least q h k);
      earlier = λ p h.
          swap-Below xs j (j + n) p (j + n) (j + suc n) inside (omega arith) (omega arith)
            (omega arith) (omega arith) (omega arith) (m.earlier p h);
    }

-- What a round of the outer loop does to the first `cnt` items.
record Passed (i cnt : ℕ) (xs : List ℕ) (r : ℕ × List ℕ) : Type 0 where
  more : i < r.0
  fewer : r.0 ≤ cnt
  room : length r.1 ≡ length xs
  least : Below i r.0 r.1
  earlier : (p : ℕ) → p < i → Below p r.0 r.1
  items : SameItems cnt xs r.0 r.1

Passed-before :
    (i cnt : ℕ) (xs : List ℕ) (cnt' : ℕ) (xs' : List ℕ) (r : ℕ × List ℕ)
    → SameItems cnt xs cnt' xs'
    → length xs' ≡ length xs
    → cnt' ≤ cnt
    → Passed i cnt' xs' r
    → Passed i cnt xs r
Passed-before i cnt xs cnt' xs' r f l h p = record {
  more = p.more;
  fewer = omega (arith, p.fewer);
  room = p.room ∙ l;
  least = p.least;
  earlier = p.earlier;
  items = SameItems-trans cnt xs cnt' xs' r.0 r.1 f p.items;
}

uniq_pass-Passed :
    (i j n : ℕ) (xs : List ℕ) → Mid i j n xs → Passed i (j + n) xs (uniq_pass i j n xs)
unfolding uniq_pass
uniq_pass-Passed i j zero xs m = record {
  more = m.apart;
  fewer = omega arith;
  room = refl;
  least = m.least;
  earlier = λ p h q k l. m.earlier p h q k (omega arith);
  items = subst (λ k. SameItems k xs j xs) (omega arith) (λ x. (λ a. a, λ a. a));
}
uniq_pass-Passed i j (suc n) xs m =
    let inside = m.inside in
    let apart = m.apart in
    let whole : j + 1 + n ≡ j + suc n = omega arith in
    elim (Bool-cases (ltb (get_or xs j 0) (get_or xs i 0))) [
      | inl less ↦
          let lt = ltb→lt _ _ less in
          let unlike = ne→== (get_or xs j 0) (get_or xs i 0) (λ z. absurd (omega (arith, z, lt))) in
          rw (less, unlike)
            (Passed-before i (j + suc n) xs (j + 1 + n) (swap xs j i) _
              (subst (λ k. SameItems (j + suc n) xs k (swap xs j i)) (sym whole)
                (swap-SameItems xs j i (j + suc n) inside (omega arith) (omega arith)))
              (length-swap xs j i) (omega arith)
              (uniq_pass-Passed i (j + 1) n (swap xs j i) (swap_less i j n xs m lt)))
      | inr not_less ↦
          let ge = ltb→ge _ _ not_less in
          elim (Bool-cases (get_or xs j 0 == get_or xs i 0)) [
            | inl alike ↦
                let e = ==→eq _ _ alike in
                elim (Bool-cases (n == 0)) [
                  | inl last ↦
                      let one : suc j ≡ j + suc n = omega (arith, ==→eq n 0 last) in
                      rw (not_less, alike, last)
                        (record {
                          more = apart;
                          fewer = omega arith;
                          room = refl;
                          least = m.least;
                          earlier = λ p h q k l. m.earlier p h q k (omega arith);
                          items =
                              subst (λ k. SameItems k xs j xs) one
                                (last-SameItems xs i j apart (sym e));
                        })
                  | inr more ↦
                      let ys = swap xs j (j + n) in
                      let kept : get_or ys i 0 ≡ get_or ys (j + n) 0 =
                        swap_other xs j (j + n) i (λ z. absurd (omega (arith, z)))
                          (λ z. absurd (omega (arith, z)))
                        ∙ sym e
                        ∙ sym (swap_right xs j (j + n) (omega arith)) in
                      rw (not_less, alike, more)
                        (Passed-before i (j + suc n) xs (j + n) ys _
                          (SameItems-trans (j + suc n) xs (j + suc n) ys (j + n) ys
                            (swap-SameItems xs j (j + n) (j + suc n) inside (omega arith)
                              (omega arith))
                            (subst (λ k. SameItems k ys (j + n) ys) (omega arith)
                              (last-SameItems ys i (j + n) (omega arith) kept)))
                          (length-swap xs j (j + n)) (omega arith)
                          (uniq_pass-Passed i j n ys (drop_last i j n xs m)))
                ]
            | inr unlike ↦
                rw (not_less, unlike)
                  (Passed-before i (j + suc n) xs (j + 1 + n) xs _
                    (subst (λ k. SameItems (j + suc n) xs k xs) (sym whole) (λ x. (λ a. a, λ a. a)))
                    refl (omega arith)
                    (uniq_pass-Passed i (j + 1) n xs
                      (step_over i j n xs m (omega (arith, ge, ==→ne _ _ unlike)))))
          ]
    ]

-- The first `n` items rise strictly, and are those that were among the first `cnt` of `xs`.
pub record SortedFrom (cnt : ℕ) (xs : List ℕ) (r : ℕ × List ℕ) : Type 0 where
  pub fewer : r.0 ≤ cnt
  pub rises : (p : ℕ) → Below p r.0 r.1
  pub items : SameItems cnt xs r.0 r.1

sort_uniq_rounds :
    (fuel i cnt : ℕ) (xs : List ℕ)
    → cnt - i ≤ fuel
    → cnt ≤ length xs
    → ((p : ℕ) → p < i → Below p cnt xs)
    → SortedFrom cnt xs (sort_uniq fuel i cnt xs)
unfolding sort_uniq
sort_uniq_rounds zero i cnt xs f l e = record {
  fewer = omega arith;
  rises = λ p q k h. e p (omega arith) q k h;
  items = λ x. (λ a. a, λ a. a);
}
sort_uniq_rounds (suc fuel) i cnt xs f l e = elim (Bool-cases (ltb i cnt)) [
  | inr done ↦
      let d = ltb→ge i cnt done in
      rw done (record {
        fewer = omega arith;
        rises = λ p q k h. e p (omega arith) q k h;
        items = λ x. (λ a. a, λ a. a);
      })
  | inl more ↦
      let lt = ltb→lt i cnt more in
      let whole : i + 1 + (cnt - (i + 1)) ≡ cnt = omega (arith, lt) in
      let r = uniq_pass i (i + 1) (cnt - (i + 1)) xs in
      let p : Passed i cnt xs r =
        subst (λ k. Passed i k xs r) whole
          (uniq_pass-Passed i (i + 1) (cnt - (i + 1)) xs (record {
            apart = omega arith;
            inside = omega (arith, lt);
            least = λ q h k. absurd (omega arith);
            earlier = λ p h q k l. e p h q k (omega (arith, lt));
          })) in
      let s =
        sort_uniq_rounds fuel (i + 1) r.0 r.1 (omega (arith, p.fewer))
          (omega (arith, p.fewer, p.room))
          (λ q h. elim (Bool-cases (q == i)) [
            | inl at ↦ subst (λ k. Below k r.0 r.1) (sym (==→eq q i at)) p.least
            | inr off ↦ p.earlier q (omega (arith, ==→ne q i off))
          ]) in
      rw more (record {
        fewer = omega (arith, s.fewer, p.fewer);
        rises = s.rises;
        items = SameItems-trans cnt xs r.0 r.1 _ _ p.items s.items;
      })
]

pub sort_uniq-SortedFrom :
    (xs : List ℕ) (cnt : ℕ) → cnt ≤ length xs → SortedFrom cnt xs (sort_uniq cnt 0 cnt xs)
sort_uniq-SortedFrom xs cnt l =
    sort_uniq_rounds cnt 0 cnt xs (omega arith) l (λ p h. absurd (omega arith))
