-- ===== src/Timer/Check.antt =====
-- The loops of `yf_poll_timer` and `yf_check_near_timer_list` over the near flags.
use yifei.Prelude.{
  ℕ, zero, suc, ◌+◌, ◌-◌, ◌*◌, ◌%◌, ◌≤◌, ◌<◌, ◌≡◌, refl, sym, ap, ap₂, ◌∙◌, subst, arith, Bool,
  true, false, not, List, [], ◌∷◌, min, ltb, ◌==◌, get_or, length, take, drop, Bool-cases, inl, inr,
  length-take, length-drop, ltb→lt, ltb→ge, ge→ltb, ==→eq, leb, leb→le, leb→gt,
}
use mathlib.Core.Bool.{true≢false, false≢true}
use yifei.Bytes.Index.{get_or-drop, get_or-take}
use yifei.Core.{returned}
use yifei.BitOp.{yf_mod}
use yifei.BitOp.Align.{yf_mod-pow}
use yifei.Timer.{TmDriver, near, near_roll_size}
use yifei.Timer.Near.{IsValid, near_list, is_empty}
use yifei.Timer.Poll.{
  check_parts, check_near_timer_list, check_indexs, bit_indexs, list_timeout_handler, is_nil,
}
use yifei.Timer.Walk.{IsWheel, Ran, skip-Ran, expire-Ran}

check_indexs-done :
    (begin diff k : ℕ) (bits : List Bool) (e : TmDriver)
    → diff ≤ k
    → check_indexs begin diff (bit_indexs k bits) e ≡ returned e
unfolding check_indexs bit_indexs
check_indexs-done begin diff k [] e h = refl
check_indexs-done begin diff k (true ∷ bits) e h = rw (ge→ltb k diff h) refl
check_indexs-done begin diff k (false ∷ bits) e h =
    check_indexs-done begin diff (k + 1) bits e (omega arith)

index_in_wheel : (r off k : ℕ) → yf_mod (yf_mod (r + off) 128 + k) 128 ≡ (r + (off + k)) % 128
index_in_wheel r off k =
    yf_mod-pow (yf_mod (r + off) 128 + k) 7
    ∙ ap (λ q. (q + k) % 128) (yf_mod-pow (r + off) 7)
    ∙ omega arith

empty_lem : (xs : List ℕ) → false ≡ not (is_empty xs) → xs ≡ []
empty_lem [] e = refl
empty_lem (x ∷ xs) e = absurd (false≢true e)

nonempty_lem : (xs : List ℕ) → true ≡ not (is_empty xs) → is_nil xs ≡ false
unfolding is_nil
nonempty_lem [] e = absurd (true≢false e)
nonempty_lem (x ∷ xs) e = refl

module _ {d : TmDriver} (v : IsValid d) (w : IsWheel d) where
  no_timers : (j : ℕ) → j < 128 → get_or d.near_tm_flags j false ≡ false → near_list d j ≡ []
  no_timers j l e = empty_lem (near_list d j) (sym e ∙ v.marked j l)

  check_indexs-Ran :
      (off diff k : ℕ) (bits : List Bool) (e : TmDriver)
      → off + k + length bits ≤ 128
      → ((q : ℕ)
          → q < length bits
          → get_or bits q false ≡ get_or d.near_tm_flags (off + k + q) false)
      → Ran d (off + min k diff) e
      → (e' : TmDriver) × (check_indexs
            (yf_mod (d.near_tm_roll_index + off) near_roll_size)
            diff
            (bit_indexs k bits)
            e
          ≡ returned e')
        × Ran d (off + min (k + length bits) diff) e'
  unfolding check_indexs bit_indexs
  check_indexs-Ran off diff k [] e l same r =
      (e, refl, subst (λ n. Ran d (off + n) e) (omega arith) r)
  check_indexs-Ran off diff k (true ∷ bits) e l same r = elim (Bool-cases (ltb k diff)) [
    | inl lt ↦
        let f = off + k in
        let at : Ran d f e = subst (λ n. Ran d n e) (omega (arith, ltb→lt k diff lt)) r in
        let flag : true ≡ get_or d.near_tm_flags f false =
          same 0 (omega arith) ∙ ap (λ n. get_or d.near_tm_flags n false) (omega arith) in
        let full : is_nil (get_or e.near_tm_lists ((d.near_tm_roll_index + f) % 128) []) ≡ false =
          nonempty_lem _ (
            flag
            ∙ v.marked f (omega arith)
            ∙ ap (λ xs. not (is_empty xs))
                (sym (at.rest f (omega arith) (omega arith))
                  ∙ ap (λ n. get_or e.near_tm_lists ((n + f) % 128) []) at.roll)) in
        let (e', q, r') =
          check_indexs-Ran off diff (k + 1) bits _ (omega arith)
            (λ q h.
              same (suc q) (omega arith) ∙ ap (λ n. get_or d.near_tm_flags n false) (omega arith))
            (subst
              (λ n. Ran d n (list_timeout_handler true e (near ((d.near_tm_roll_index + f) % 128))))
              (omega (arith, ltb→lt k diff lt)) (expire-Ran v w e f (omega arith) at)) in
        rw (lt, index_in_wheel d.near_tm_roll_index off k, full)
          (e', q, subst (λ n. Ran d (off + n) e') (omega arith) r')
    | inr ge ↦ rw ge (e, refl, subst (λ n. Ran d (off + n) e) (omega (arith, ltb→ge k diff ge)) r)
  ]
  check_indexs-Ran off diff k (false ∷ bits) e l same r = elim (Bool-cases (ltb k diff)) [
    | inl lt ↦
        let at : Ran d (off + k) e = subst (λ n. Ran d n e) (omega (arith, ltb→lt k diff lt)) r in
        let empty =
          no_timers (off + k) (omega arith)
            (ap (λ n. get_or d.near_tm_flags n false) (omega arith) ∙ sym (same 0 (omega arith))) in
        let (e', q, r') =
          check_indexs-Ran off diff (k + 1) bits e (omega arith)
            (λ q h.
              same (suc q) (omega arith) ∙ ap (λ n. get_or d.near_tm_flags n false) (omega arith))
            (subst (λ n. Ran d n e) (omega (arith, ltb→lt k diff lt))
              (skip-Ran v w e (off + k) (omega arith) empty at)) in
        (e', q, subst (λ n. Ran d (off + n) e') (omega arith) r')
    | inr ge ↦ (
      e,
      check_indexs-done _ diff (k + 1) bits e (omega (arith, ltb→ge k diff ge)),
      subst (λ n. Ran d (off + n) e) (omega (arith, ltb→ge k diff ge)) r,
    )
  ]

  check_near_timer_list-Ran :
      (off diff : ℕ) (e : TmDriver)
      → off + 16 ≤ 128
      → Ran d off e
      → (e' : TmDriver) × (check_near_timer_list off diff e ≡ returned e')
        × Ran d (off + min 16 diff) e'
  unfolding check_near_timer_list
  check_near_timer_list-Ran off diff e l r =
      let bits = take 16 (drop off d.near_tm_flags) in
      let long : length bits ≡ 16 = omega (
        arith,
        length-take 16 (drop off d.near_tm_flags),
        length-drop off d.near_tm_flags,
        v.flags,
      ) in
      let (e', q, r') =
        check_indexs-Ran off diff 0 bits e (omega (arith, long))
          (λ q h.
            get_or-take 16 (drop off d.near_tm_flags) q false (omega (arith, long))
            ∙ get_or-drop off d.near_tm_flags q false
            ∙ ap (λ n. get_or d.near_tm_flags n false) (omega arith))
          (subst (λ n. Ran d n e) (omega arith) r) in
      let by_d =
        ap₂
          (λ n flags.
            check_indexs (yf_mod (n + off) near_roll_size) diff
              (bit_indexs 0 (take 16 (drop off flags))) e)
          r.roll r.flags in
      (e', by_d ∙ q, subst (λ n. Ran d (off + n) e') (omega (arith, long)) r')

  check_parts-done : (parts off : ℕ) (e : TmDriver) → check_parts parts off 0 e ≡ returned e
  unfolding check_parts
  check_parts-done zero off e = refl
  check_parts-done (suc parts) off e = refl

  pub check_parts-Ran :
      (parts off diff : ℕ) (e : TmDriver)
      → off + 16 * parts ≡ 128
      → Ran d off e
      → (e' : TmDriver) × (check_parts parts off diff e ≡ returned e')
        × Ran d (min 128 (off + diff)) e'
  unfolding check_parts
  check_parts-Ran zero off diff e l r = (e, refl, subst (λ n. Ran d n e) (omega arith) r)
  check_parts-Ran (suc parts) off diff e l r = elim (Bool-cases (diff == 0)) [
    | inl z ↦ rw z (e, refl, subst (λ n. Ran d n e) (omega (arith, ==→eq diff 0 z)) r)
    | inr nz ↦
        let (e1, q1, r1) = check_near_timer_list-Ran off diff e (omega arith) r in
        rw (nz, q1)
          (elim (Bool-cases (leb diff 16)) [
            | inl short ↦
                let le = leb→le diff 16 short in
                (
                  e1,
                  ap (λ n. check_parts parts (off + 16) n e1) (omega (arith, le))
                      ∙ check_parts-done parts (off + 16) e1,
                  subst (λ n. Ran d n e1) (omega (arith, le)) r1,
                )
            | inr long ↦
                let gt = leb→gt diff 16 long in
                let (e', q, r') =
                  check_parts-Ran parts (off + 16) (diff - 16) e1 (omega arith)
                    (subst (λ n. Ran d n e1) (omega (arith, gt)) r1) in
                (e', q, subst (λ n. Ran d n e') (omega (arith, gt)) r')
          ])
  ]
