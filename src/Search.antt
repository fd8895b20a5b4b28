-- ===== src/Search.antt =====
-- The macro `yf_bsearch` of src/base_struct/yf_core.h, at a key and items that are numbers, with the
-- comparison that it is given.
use yifei.Prelude.Int.{ℤ, pos, ltb_ℤ, sub_ℕ, s32, word32, s32_of}
use yifei.Prelude.{
  ℕ, ◌^◌, ◌≡◌, zero, suc, ◌+◌, ◌-◌, ◌/◌, ◌≤◌, ◌<◌, arith, inl, inr, Bool-cases, ltb, ltb→lt, ltb→ge,
  if◌then◌else◌, ◌==◌, ==→eq, ==→ne, ◌||◌,
}

-- `yf_bsearch_cmp`, whose result the macro puts into an `int`.
unfoldable pub bsearch_cmp : (key item : ℕ) → ℤ
bsearch_cmp key item = s32 (sub_ℕ key item)

-- The `while` of the macro on fuel; a round at least halves what is between `start` and `end`.
unfoldable pub bsearch_loop : (cmp : ℕ → ℕ → ℤ) (fuel : ℕ) (base : ℕ → ℕ) (key start end : ℕ) → ℕ
bsearch_loop cmp zero base key start end = start
bsearch_loop cmp (suc fuel) base key start end =
    let mid = start + (end - start) / 2 in
    let result = cmp key (base mid) in
    let left = ltb_ℤ result (pos 0) in
    let rest =
      bsearch_loop cmp fuel base key (if left then start else mid + 1)
        (if left then mid else end) in
    if ltb start end then if left || ltb_ℤ (pos 0) result then rest else mid else start

-- `yf_bsearch(key, base, num, cmp, pos)`: the value that `pos` gets.
unfoldable pub bsearch : (cmp : ℕ → ℕ → ℤ) (key : ℕ) (base : ℕ → ℕ) (num : ℕ) → ℕ
unfolding bsearch_loop
bsearch cmp key base num = bsearch_loop cmp num base key 0 num

-- The comparison tells the order of two numbers below 2^31, whose difference an `int` holds.
bsearch_cmp-ltb :
    (key item : ℕ)
    → key < 2 ^ 31
    → item < 2 ^ 31
    → (ltb_ℤ (bsearch_cmp key item) (pos 0) ≡ ltb key item)
      × (ltb_ℤ (pos 0) (bsearch_cmp key item) ≡ ltb item key)
unfolding bsearch_cmp s32 word32 s32_of
bsearch_cmp-ltb key item h l = (ground arith, ground arith)

-- The first place at which `key` does not come behind the item.
pub record IsPosition (base : ℕ → ℕ) (key num pos : ℕ) : Type 0 where
  pub inside : pos ≤ num
  pub before : (i : ℕ) → i < pos → base i < key
  pub behind : (i : ℕ) → pos ≤ i → i < num → key ≤ base i

module _ (cmp : ℕ → ℕ → ℤ) (base : ℕ → ℕ) (key num : ℕ)
    (tells : (i : ℕ)
      → i < num
      → (ltb_ℤ (cmp key (base i)) (pos 0) ≡ ltb key (base i))
        × (ltb_ℤ (pos 0) (cmp key (base i)) ≡ ltb (base i) key))
    (sorted : (i j : ℕ) → i < j → j < num → base i < base j) where
  sorted_le : (i j : ℕ) → i ≤ j → j < num → base i ≤ base j
  sorted_le i j h l = elim (Bool-cases (i == j)) [
    | inl e ↦ let q = ==→eq i j e in rw q (omega arith)
    | inr n ↦ omega (arith, sorted i j (omega (arith, ==→ne i j n)) l)
  ]

  bsearch_loop-IsPosition :
      (fuel start end : ℕ)
      → end - start ≤ fuel
      → start ≤ end
      → end ≤ num
      → ((i : ℕ) → i < start → base i < key)
      → ((i : ℕ) → end ≤ i → i < num → key ≤ base i)
      → IsPosition base key num (bsearch_loop cmp fuel base key start end)
  unfolding bsearch_loop
  bsearch_loop-IsPosition zero start end f o w below above = record {
    inside = omega arith;
    before = below;
    behind = λ i l. above i (omega arith);
  }
  bsearch_loop-IsPosition (suc fuel) start end f o w below above =
      elim (Bool-cases (ltb start end)) [
        | inr done ↦
            let d = ltb→ge _ _ done in
            rw done (record {
              inside = omega arith;
              before = below;
              behind = λ i l. above i (omega arith);
            })
        | inl more ↦
            let l = ltb→lt _ _ more in
            let mid = start + (end - start) / 2 in
            let told = tells mid (omega arith) in
            rw (more, told.0, told.1)
              (elim (Bool-cases (ltb key (base mid))) [
                | inl left ↦
                    let k = ltb→lt _ _ left in
                    rw left (
                      bsearch_loop-IsPosition fuel start mid (omega arith) (omega arith)
                        (omega arith) below (λ i h n. omega (arith, sorted_le mid i h n)))
                | inr not_left ↦
                    let k = ltb→ge _ _ not_left in
                    rw not_left (elim (Bool-cases (ltb (base mid) key)) [
                      | inl right ↦
                          let r = ltb→lt _ _ right in
                          rw right (
                            bsearch_loop-IsPosition fuel (mid + 1) end (omega arith) (omega arith) w
                              (λ i h. omega (arith, sorted_le i mid (omega arith) (omega arith)))
                              above)
                      | inr same ↦
                          let s = ltb→ge _ _ same in
                          rw same (record {
                            inside = omega arith;
                            before = λ i h. omega (arith, sorted i mid h (omega arith));
                            behind = λ i h n. omega (arith, sorted_le mid i h n);
                          })
                    ])
              ])
      ]

  -- The search with any comparison that tells the order.
  pub bsearch-IsPosition_by : IsPosition base key num (bsearch cmp key base num)
  unfolding bsearch
  bsearch-IsPosition_by =
      bsearch_loop-IsPosition num 0 num (omega arith) (omega arith) (omega arith)
        (λ i h. absurd (omega arith)) (λ i h n. absurd (omega arith))

-- On an array of numbers below 2^31 that rises strictly, and for a key below 2^31, `yf_bsearch`
-- with `yf_bsearch_cmp` gives the first place at which the key does not come behind the item, or
-- the number of items if there is none.
pub bsearch-IsPosition :
    (base : ℕ → ℕ) (key num : ℕ)
    → key < 2 ^ 31
    → ((i : ℕ) → i < num → base i < 2 ^ 31)
    → ((i j : ℕ) → i < j → j < num → base i < base j)
    → IsPosition base key num (bsearch bsearch_cmp key base num)
bsearch-IsPosition base key num small items sorted =
    bsearch-IsPosition_by bsearch_cmp base key num
      (λ i h. bsearch_cmp-ltb key (base i) small (items i h)) sorted
