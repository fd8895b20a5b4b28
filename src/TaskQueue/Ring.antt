-- ===== src/TaskQueue/Ring.antt =====
-- The byte ring under the task queue: what `yf_tq_buf_add` and `yf_tq_buf_get` move.
use native.Mathlib.Nat.{mod-lt, mod-eq_of_lt, mod-eq-sub-mod}
use yifei.Prelude.{
  ℕ, ◌+◌, ◌-◌, ◌%◌, ◌≤◌, ◌<◌, ◌≡◌, ◌⊎◌, refl, sym, ap, ap₂, ◌∙◌, List, ◌++◌, arith, inl, inr, some,
  none, length, take, drop, length-append, length-take, length-drop, take-append_left,
  take-append_right, drop-append_left, drop-append_right, append_assoc, take-append-drop,
  take-of_length_le, take-drop-take, Bool-cases, ltb, lt→ltb, ge→ltb, drop-drop, ltb→lt, ltb→ge,
  ◌==◌, ==→eq, ==→ne,
}
use yifei.Bytes.{memcpy, over, turn}
use yifei.Bytes.Over.{memcpy-over, over-over, length-over, take-split}
use yifei.Bytes.Turn.{turn-over_left, turn-over_right}
use yifei.TaskQueue.{TaskQueue, buf_size, buf_add, buf_get}

-- The distance forward from `r` to `w`.
pub buf_size-lt : (c r w : ℕ) → r ≤ w → w < c → buf_size c r w ≡ w - r
unfolding buf_size
buf_size-lt c r w p q =
    mod-eq-sub-mod {n = w + c - r} {m = c} (omega arith)
    ∙ ap (λ k. k % c) (let e : w + c - r - c ≡ w - r = omega arith in e)
    ∙ mod-eq_of_lt (omega arith)

pub buf_size-wrap : (c r w : ℕ) → w < r → r < c → buf_size c r w ≡ w + c - r
unfolding buf_size
buf_size-wrap c r w p q = mod-eq_of_lt (omega arith)

-- What adding bytes at `w` does, seen from `r`, which the bytes do not reach.
pub record Adds (c : ℕ) (area : List ℕ) (r w : ℕ) (xs : List ℕ) (res : List ℕ × ℕ) : Type 0 where
  pub ring : turn r res.0 ≡ over (turn r area) (buf_size c r w) xs
  pub as_long : length res.0 ≡ c
  pub inside : res.1 < c
  pub ahead : buf_size c r res.1 ≡ buf_size c r w + length xs

take_all : (xs : List ℕ) → take (length xs) xs ≡ xs
take_all xs = take-of_length_le (length xs) xs (omega arith)

module _ (c : ℕ) (area : List ℕ) (r w : ℕ) (xs : List ℕ) (long : length area ≡ c) (rin : r < c)
    (win : w < c) where
  -- One copy that does not go round the end.
  straight :
      w + length xs ≤ c
      → buf_size c r w + length xs < c
      → (turn r (memcpy area w xs (length xs)) ≡ over (turn r area) (buf_size c r w) xs)
        × (length (memcpy area w xs (length xs)) ≡ c)
  straight fits room =
      let e : memcpy area w xs (length xs) ≡ over area w xs =
        memcpy-over area w (length xs) xs (omega arith) ∙ ap (over area w) (take_all xs) in
      rw e (
        elim (Bool-cases (ltb w r)) [
          | inl before ↦
              let p = ltb→lt _ _ before in
              let d = buf_size-wrap c r w p rin in
              turn-over_right area r (omega arith) w xs (omega (arith, d))
              ∙ ap (λ k. over (turn r area) k xs) (omega (arith, d))
          | inr behind ↦
              let p = ltb→ge _ _ behind in
              let d = buf_size-lt c r w p win in
              turn-over_left area r (omega arith) w xs p (omega arith)
              ∙ ap (λ k. over (turn r area) k xs) (sym d)
        ],
        omega (arith, length-over area w xs (omega arith)),
      )

  -- Two copies: to the end of the ring, and on from its start.
  round :
      (t : ℕ)
      → t ≡ c - w
      → t < length xs
      → buf_size c r w + length xs < c
      → (turn r (memcpy (memcpy area w xs t) 0 (drop t xs) (length xs - t))
          ≡ over (turn r area) (buf_size c r w) xs)
        × (length (memcpy (memcpy area w xs t) 0 (drop t xs) (length xs - t)) ≡ c)
  round t te more room =
      let first : memcpy area w xs t ≡ over area w (take t xs) =
        memcpy-over area w t xs (omega arith) in
      let n : length (drop t xs) ≡ length xs - t = length-drop t xs in
      let l : length (take t xs) ≡ t = omega (arith, length-take t xs) in
      let len1 : length (over area w (take t xs)) ≡ c =
        omega (arith, length-over area w (take t xs) (omega arith)) in
      let second : memcpy (over area w (take t xs)) 0 (drop t xs) (length xs - t)
          ≡ over (over area w (take t xs)) 0 (drop t xs) =
        memcpy-over (over area w (take t xs)) 0 (length xs - t) (drop t xs) (omega arith)
        ∙ ap (over (over area w (take t xs)) 0)
            (take-of_length_le (length xs - t) (drop t xs) (omega arith)) in
      let p : r ≤ w = behind te more room in
      let d = buf_size-lt c r w p win in
      let joined : take t xs ++ drop t xs ≡ xs = take-append-drop t xs in
      rw (first, second)
        (
          turn-over_right (over area w (take t xs)) r (omega arith) 0 (drop t xs) (omega arith)
              ∙ ap (λ z. over z (length (over area w (take t xs)) - r + 0) (drop t xs))
                  (turn-over_left area r (omega arith) w (take t xs) p (omega arith))
              ∙ ap (λ k. over (over (turn r area) (w - r) (take t xs)) k (drop t xs)) (omega arith)
              ∙ over-over (turn r area) (w - r) (take t xs) (drop t xs)
                  (omega (arith, length-append (drop r area) (take r area), length-drop r area))
              ∙ ap₂ (λ k z. over (turn r area) k z) (sym d) joined,
          omega (arith, length-over (over area w (take t xs)) 0 (drop t xs) (omega arith)),
        )
    where
      behind : t ≡ c - w → t < length xs → buf_size c r w + length xs < c → r ≤ w
      behind te more room = elim (Bool-cases (ltb w r)) [
        | inl before ↦
            let d = buf_size-wrap c r w (ltb→lt _ _ before) rin in absurd (omega (arith, d))
        | inr back ↦ ltb→ge _ _ back
      ]

  -- Where the new offset stands.
  ahead_of :
      (o : ℕ)
      → buf_size c r w + length xs < c
      → ((o ≡ w + length xs) × (o < c)) ⊎ ((o + c ≡ w + length xs) × (o < c))
      → buf_size c r o ≡ buf_size c r w + length xs
  ahead_of o room (inl (e, l)) = elim (Bool-cases (ltb w r)) [
    | inl before ↦
        let d = buf_size-wrap c r w (ltb→lt _ _ before) rin in
        buf_size-wrap c r o (omega (arith, d)) rin ∙ omega (arith, d)
    | inr back ↦
        let d = buf_size-lt c r w (ltb→ge _ _ back) win in
        buf_size-lt c r o (omega (arith, ltb→ge _ _ back)) l ∙ omega (arith, d, ltb→ge _ _ back)
  ]
  ahead_of o room (inr (e, l)) = elim (Bool-cases (ltb w r)) [
    | inl before ↦ let d = buf_size-wrap c r w (ltb→lt _ _ before) rin in absurd (omega (arith, d))
    | inr back ↦
        let d = buf_size-lt c r w (ltb→ge _ _ back) win in
        buf_size-wrap c r o (omega (arith, d, ltb→ge _ _ back)) rin
        ∙ omega (arith, d, ltb→ge _ _ back)
  ]

  -- `yf_tq_buf_add` writes the bytes behind those that stand between the two offsets.
  pub buf_add_lem : buf_size c r w + length xs < c → Adds c area r w xs (buf_add c area w xs)
  unfolding buf_add
  buf_add_lem room = elim (Bool-cases (ltb (length xs) (c - w))) [
    | inl fits ↦
        let l = ltb→lt _ _ fits in
        let s = straight (omega arith) room in
        rw fits (record {
          ring = s.0;
          as_long = s.1;
          inside = omega arith;
          ahead = ahead_of (w + length xs) room (inl (refl, omega arith));
        })
    | inr big ↦
        let g = ltb→ge _ _ big in
        rw big (elim (Bool-cases (length xs == c - w)) [
          | inl exact ↦
              let e = ==→eq _ _ exact in
              let s = straight (omega arith) room in
              rw exact (record {
                ring = s.0;
                as_long = s.1;
                inside = omega arith;
                ahead = ahead_of 0 room (inr (omega arith, omega arith));
              })
          | inr over_end ↦
              let ne = ==→ne _ _ over_end in
              let s = round (c - w) refl (omega arith) room in
              rw over_end (record {
                ring = s.0;
                as_long = s.1;
                inside = omega arith;
                ahead = ahead_of (length xs - (c - w)) room (inr (omega arith, omega arith));
              })
        ])
  ]

-- Going on by `n` in a ring that is turned to `r`.
module _ {ℓ} {A : Type ℓ} (xs : List A) (r n : ℕ) (rin : r ≤ length xs) where
  turn_on : r + n ≤ length xs → turn (r + n) xs ≡ turn n (turn r xs)
  turn_on h =
      let d : length (drop r xs) ≡ length xs - r = length-drop r xs in
      ap₂ ◌++◌ (sym (drop-drop n r xs)) (sym (take-split r n xs))
      ∙ sym (append_assoc (drop n (drop r xs)) (take r xs) (take n (drop r xs)))
      ∙ ap₂ ◌++◌ (sym (drop-append_left n (drop r xs) (take r xs) (omega (arith, d))))
          (sym (take-append_left n (drop r xs) (take r xs) (omega (arith, d))))

  turn_round : (k : ℕ) → k + length xs ≡ r + n → k ≤ r → turn k xs ≡ turn n (turn r xs)
  turn_round k e h =
      let d : length (drop r xs) ≡ length xs - r = length-drop r xs in
      let m : n - length (drop r xs) ≡ k = omega (arith, d) in
      let l : length (take r xs) ≡ r = omega (arith, length-take r xs) in
      ap (turn k) (sym (take-append-drop r xs))
      ∙ ap₂ ◌++◌ (drop-append_left k (take r xs) (drop r xs) (omega arith))
          (take-append_left k (take r xs) (drop r xs) (omega arith))
      ∙ append_assoc (drop k (take r xs)) (drop r xs) (take k (take r xs))
      ∙ ap₂ ◌++◌
          (ap (λ j. drop j (take r xs)) (sym m)
            ∙ sym (drop-append_right n (drop r xs) (take r xs) (omega (arith, d))))
          (ap (λ j. drop r xs ++ take j (take r xs)) (sym m)
            ∙ sym (take-append_right n (drop r xs) (take r xs) (omega (arith, d))))

-- What taking `n` bytes at `r` does in a queue that ends at `w`.
pub record Takes (q : TaskQueue) (r n : ℕ) (res : List ℕ × ℕ) : Type 0 where
  pub got : res.0 ≡ take n (turn r q.area)
  pub inside : res.1 < q.capacity
  pub turned : turn res.1 q.area ≡ turn n (turn r q.area)
  pub left : buf_size q.capacity res.1 q.write_offset + n ≡ buf_size q.capacity r q.write_offset

module _ (q : TaskQueue) (r n : ℕ) (long : length q.area ≡ q.capacity) (rin : r < q.capacity)
    (win : q.write_offset < q.capacity) where
  left_of :
      (o : ℕ)
      → n ≤ buf_size q.capacity r q.write_offset
      → ((o ≡ r + n) × (o < q.capacity)) ⊎ ((o + q.capacity ≡ r + n) × (o < q.capacity))
      → buf_size q.capacity o q.write_offset + n ≡ buf_size q.capacity r q.write_offset
  left_of o room (inl (e, l)) = elim (Bool-cases (ltb q.write_offset r)) [
    | inl before ↦
        let b = ltb→lt _ _ before in
        let d = buf_size-wrap q.capacity r q.write_offset b rin in
        let d' = buf_size-wrap q.capacity o q.write_offset (omega arith) l in omega (arith, d, d')
    | inr back ↦
        let b = ltb→ge _ _ back in
        let d = buf_size-lt q.capacity r q.write_offset b win in
        let d' = buf_size-lt q.capacity o q.write_offset (omega (arith, d)) win in
        omega (arith, d, d')
  ]
  left_of o room (inr (e, l)) = elim (Bool-cases (ltb q.write_offset r)) [
    | inl before ↦
        let b = ltb→lt _ _ before in
        let d = buf_size-wrap q.capacity r q.write_offset b rin in
        let d' = buf_size-lt q.capacity o q.write_offset (omega (arith, d)) win in
        omega (arith, d, d')
    | inr back ↦
        let b = ltb→ge _ _ back in
        let d = buf_size-lt q.capacity r q.write_offset b win in absurd (omega (arith, d))
  ]

  -- `yf_tq_buf_get` takes the first bytes that stand between the two offsets.
  pub buf_get_lem :
      n ≤ buf_size q.capacity r q.write_offset
      → (res : List ℕ × ℕ) × (buf_get q r n ≡ some res) × Takes q r n res
  unfolding buf_get
  buf_get_lem room = rw (ge→ltb _ _ room) (elim (Bool-cases (ltb n (q.capacity - r))) [
    | inl fits ↦
        let l = ltb→lt _ _ fits in
        (
          _,
          rw fits,
          record {
            got = sym (take-append_left n (drop r q.area) (take r q.area) (omega (arith, d)));
            inside = omega arith;
            turned = turn_on q.area r n (omega arith) (omega arith);
            left = left_of (r + n) room (inl (refl, omega arith));
          },
        )
    | inr big ↦ elim (Bool-cases (n == q.capacity - r)) [
      | inl exact ↦
          let e = ==→eq _ _ exact in
          (
            _,
            rw (big, exact),
            record {
              got = sym (take-append_left n (drop r q.area) (take r q.area) (omega (arith, d)));
              inside = omega arith;
              turned = turn_round q.area r n (omega arith) 0 (omega arith) (omega arith);
              left = left_of 0 room (inr (omega arith, omega arith));
            },
          )
      | inr more ↦
          let g = ltb→ge _ _ big in
          let ne = ==→ne _ _ more in
          let bound : buf_size q.capacity r q.write_offset < q.capacity = buf_size_bound in
          (
            _,
            rw (big, more),
            record {
              got = round_bytes g;
              inside = omega arith;
              turned =
                  turn_round q.area r n (omega arith) (n - (q.capacity - r)) (omega arith)
                    (omega arith);
              left = left_of (n - (q.capacity - r)) room (inr (omega arith, omega arith));
            },
          )
    ]
  ])
    where
      d : length (drop r q.area) ≡ length q.area - r
      d = length-drop r q.area

      buf_size_bound : buf_size q.capacity r q.write_offset < q.capacity
      buf_size_bound = unfold buf_size in mod-lt _ (omega arith)

      round_bytes :
          q.capacity - r ≤ n
          → take (q.capacity - r) (drop r q.area) ++ take (n - (q.capacity - r)) q.area
            ≡ take n (turn r q.area)
      round_bytes g =
          let k : length (drop r q.area) ≡ q.capacity - r = omega (arith, d) in
          let tail_eq : take (n - (q.capacity - r)) q.area
              ≡ take (n - length (drop r q.area)) (take r q.area) =
            sym (take-drop-take (n - (q.capacity - r)) 0 r q.area (omega (arith, buf_size_bound)))
            ∙ ap (λ j. take (n - j) (take r q.area)) (sym k) in
          ap₂ ◌++◌ (take-of_length_le (q.capacity - r) (drop r q.area) (omega (arith, d))) tail_eq
          ∙ sym (take-append_right n (drop r q.area) (take r q.area) (omega (arith, d)))

  pub buf_get_again : buf_size q.capacity r q.write_offset < n → buf_get q r n ≡ none
  unfolding buf_get
  buf_get_again few = rw (lt→ltb _ _ few)
