-- ===== src/TaskQueue/Stored.antt =====
-- The bytes that a task queue holds, and what its two copying routines do to them.
use native.Mathlib.Nat.{mod-lt}
use yifei.Prelude.{
  ℕ, suc, ◌+◌, ◌-◌, ◌≤◌, ◌<◌, ◌≡◌, sym, ap, ap₂, ◌∙◌, List, [], ◌∷◌, ◌++◌, append_assoc, append-nil,
  if◌then◌else◌, arith, inl, inr, length, take, drop, length-append, length-take, length-drop,
  take-append_left, take-of_length_le, Bool-cases, ltb, ◌==◌, ltb→lt, ltb→ge, ==→eq, ==→ne, ne→==,
  take-append-drop, drop-append_right, subst,
}
use yifei.Bytes.{over, turn}
use yifei.Core.{magic_val}
use yifei.TaskQueue.{TaskQueue, buf_size, free_capacity, buf_add}
use yifei.TaskQueue.Ring.{Adds, buf_size-lt, buf_size-wrap, buf_add_lem, Takes}

-- The bytes between the two offsets.
unfoldable pub stored : ℕ → List ℕ → ℕ → ℕ → List ℕ
stored c area r w = take (buf_size c r w) (turn r area)

unfoldable pub pending : TaskQueue → List ℕ
pending q = stored q.capacity q.area q.read_offset q.write_offset

-- A queue that `yf_init_task_queue` and the operations leave.
pub record IsValid (q : TaskQueue) : Type 0 where
  pub marked : q.magic ≡ magic_val
  pub as_long : length q.area ≡ q.capacity
  pub reads_in : q.read_offset < q.capacity
  pub writes_in : q.write_offset < q.capacity

length-turn : (r : ℕ) (xs : List ℕ) → r ≤ length xs → length (turn r xs) ≡ length xs
length-turn r xs h =
    omega (arith, length-append (drop r xs) (take r xs), length-drop r xs, length-take r xs)

pub length-stored :
    (c : ℕ) (area : List ℕ) (r w : ℕ)
    → length area ≡ c
    → r < c
    → length (stored c area r w) ≡ buf_size c r w
unfolding stored
length-stored c area r w l p =
    let b : buf_size c r w < c = unfold buf_size in mod-lt _ (omega arith) in
    omega (arith, b, length-take (buf_size c r w) (turn r area), length-turn r area (omega arith))

stored-Adds :
    (c : ℕ) (area : List ℕ) (r w : ℕ) (xs : List ℕ) (res : List ℕ × ℕ)
    → length area ≡ c
    → r < c
    → buf_size c r w + length xs < c
    → Adds c area r w xs res
    → stored c res.0 r res.1 ≡ stored c area r w ++ xs
unfolding stored over
stored-Adds c area r w xs res l p room a =
    let s = buf_size c r w in
    let y = turn r area in
    let le : length (take s y) ≡ s =
      omega (arith, length-take s y, length-turn r area (omega arith)) in
    let whole : length (take s y ++ xs) ≡ s + length xs =
      omega (arith, length-append (take s y) xs, le) in
    ap₂ take a.ahead a.ring
    ∙ ap (take (s + length xs)) (sym (append_assoc (take s y) xs (drop (s + length xs) y)))
    ∙ take-append_left (s + length xs) (take s y ++ xs) (drop (s + length xs) y) (omega arith)
    ∙ take-of_length_le (s + length xs) (take s y ++ xs) (omega arith)

pub free_capacity_lem :
    (q : TaskQueue) → IsValid q → free_capacity q + length (pending q) ≡ q.capacity
unfolding free_capacity pending
free_capacity_lem q v =
    let l = length-stored q.capacity q.area q.read_offset q.write_offset v.as_long v.reads_in in
    elim (Bool-cases (q.read_offset == q.write_offset)) [
      | inl same ↦
          let e = ==→eq _ _ same in
          let d = buf_size-lt q.capacity q.read_offset q.write_offset (omega arith) v.writes_in in
          rw same (omega (arith, l, d))
      | inr apart ↦
          let n = ==→ne _ _ apart in
          rw apart (elim (Bool-cases (ltb q.write_offset q.read_offset)) [
            | inl before ↦
                let b = ltb→lt _ _ before in
                let d = buf_size-wrap q.capacity q.read_offset q.write_offset b v.reads_in in
                let f =
                  buf_size-lt q.capacity q.write_offset q.read_offset (omega arith) v.reads_in in
                unfold buf_size in omega (arith, l, d, f)
            | inr behind ↦
                let b = ltb→ge _ _ behind in
                let d = buf_size-lt q.capacity q.read_offset q.write_offset b v.writes_in in
                let f =
                  buf_size-wrap q.capacity q.write_offset q.read_offset (omega arith) v.writes_in in
                unfold buf_size in omega (arith, l, d, f)
          ])
    ]

-- The queue after its first `n` bytes are taken.
pub stored-Takes :
    (q : TaskQueue) (r n : ℕ) (res : List ℕ × ℕ) (xs ys : List ℕ)
    → length q.area ≡ q.capacity
    → r < q.capacity
    → stored q.capacity q.area r q.write_offset ≡ xs ++ ys
    → length xs ≡ n
    → Takes q r n res
    → (res.0 ≡ xs) × (stored q.capacity q.area res.1 q.write_offset ≡ ys)
unfolding stored
stored-Takes q r n res xs ys l p e len t =
    let s = buf_size q.capacity r q.write_offset in
    let y = turn r q.area in
    let bound : s < q.capacity = unfold buf_size in mod-lt _ (omega arith) in
    let ly : length y ≡ q.capacity = length-turn r q.area (omega arith) ∙ l in
    let count : length xs + length ys ≡ s =
      omega (arith, sym (length-append xs ys) ∙ ap length (sym e), length-take s y, ly) in
    let rest = drop s y in
    let split : y ≡ xs ++ (ys ++ rest) =
      sym (take-append-drop s y) ∙ ap (λ k. k ++ rest) e ∙ append_assoc xs ys rest in
    let behind : drop n y ≡ ys ++ rest =
      ap (drop n) split
      ∙ drop-append_right n xs (ys ++ rest) (omega arith)
      ∙ ap (λ k. drop k (ys ++ rest)) (let z : n - length xs ≡ 0 = omega arith in z) in
    (
      t.got
          ∙ ap (take n) split
          ∙ take-append_left n xs (ys ++ rest) (omega arith)
          ∙ take-of_length_le n xs (omega arith),
      ap₂ take
            (let k : buf_size q.capacity res.1 q.write_offset ≡ length ys = omega (arith, t.left) in
              k)
            (t.turned ∙ ap (λ k. k ++ take n y) behind ∙ append_assoc ys rest (take n y))
          ∙ take-append_left (length ys) ys (rest ++ take n y) (omega arith)
          ∙ take-of_length_le (length ys) ys (omega arith),
    )

-- The ring after a record of two parts, of which the second may be empty.
pub record Grown (c : ℕ) (area : List ℕ) (r w : ℕ) (xs : List ℕ) (res : List ℕ × ℕ) : Type 0 where
  pub bytes : stored c res.0 r res.1 ≡ stored c area r w ++ xs
  pub as_long : length res.0 ≡ c
  pub inside : res.1 < c

buf_add-Grown :
    (c : ℕ) (area : List ℕ) (r w : ℕ) (xs : List ℕ)
    → length area ≡ c
    → r < c
    → w < c
    → buf_size c r w + length xs < c
    → Grown c area r w xs (buf_add c area w xs)
buf_add-Grown c area r w xs l p q room =
    let a = buf_add_lem c area r w xs l p q room in
    record {
      bytes = stored-Adds c area r w xs _ l p room a;
      as_long = a.as_long;
      inside = a.inside;
    }

pub two_adds :
    (c : ℕ) (area : List ℕ) (r w : ℕ) (xs ys : List ℕ)
    → length area ≡ c
    → r < c
    → w < c
    → buf_size c r w + (length xs + length ys) < c
    → (let one = buf_add c area w xs in
        Grown c area r w (xs ++ ys) (if length ys == 0 then one else buf_add c one.0 one.1 ys))
two_adds c area r w xs [] l p q room =
    subst (λ k. Grown c area r w k (buf_add c area w xs)) (sym (append-nil xs))
      (buf_add-Grown c area r w xs l p q (omega arith))
two_adds c area r w xs (y ∷ ys) l p q room =
    let a = buf_add_lem c area r w xs l p q (omega arith) in
    let b =
      buf_add-Grown c (buf_add c area w xs).0 r (buf_add c area w xs).1 (y ∷ ys) a.as_long p
        a.inside (omega (arith, a.ahead)) in
    rw (ne→== (suc (length ys)) 0 (omega arith)) (record {
      bytes =
          b.bytes
          ∙ ap (λ k. k ++ (y ∷ ys)) (stored-Adds c area r w xs _ l p (omega arith) a)
          ∙ append_assoc (stored c area r w) xs (y ∷ ys);
      as_long = b.as_long;
      inside = b.inside;
    })
