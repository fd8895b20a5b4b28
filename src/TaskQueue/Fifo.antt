-- ===== src/TaskQueue/Fifo.antt =====
-- Runs of `yf_task_push` and `yf_task_pop`: the tasks come out as they went in.
use yifei.Prelude.{
  ℕ, zero, suc, ◌+◌, ◌-◌, ◌^◌, ◌<◌, ◌≤◌, ◌≡◌, ◌≢◌, refl, sym, ap, ◌∙◌, Option, none, some, List, [],
  ◌∷◌, ◌++◌, append_assoc, append-nil, arith, length, length-append, map, subst, take, ne→==,
  gt→leb,
}
use yifei.Bytes.{turn}
use yifei.Core.{Status, success, magic_val, Checked, returned}
use yifei.TaskQueue.{
  TaskInfo, HeadLayout, TaskQueue, task_push, taken, Popped, task_pop, init_task_queue, buf_size,
  too_small,
}
use yifei.TaskQueue.Ring.{buf_size-lt}
use yifei.TaskQueue.Stored.{stored, pending}
use yifei.TaskQueue.Refine.{
  Message, frame, wire, Holds, task_push-Holds, task_pop-Holds, length-frame,
}

module _ (layout : HeadLayout) where
  open layout use {head_size}

  unfoldable pub push_next :
      Checked (Status × TaskQueue) → (TaskQueue → Option TaskQueue) → Option TaskQueue
  push_next (returned (success, q)) f = f q
  push_next _ f = none

  -- One `yf_task_push` after the other, as long as they succeed.
  unfoldable pub push_all : List Message → TaskQueue → Option TaskQueue
  push_all [] q = some q
  push_all (m ∷ ms) q = push_next (task_push layout q m.info m.task m.time) (push_all ms)

  unfoldable pub pop_next :
      Checked (Popped layout)
      → (TaskQueue → Option (List (TaskInfo × List ℕ) × TaskQueue))
      → Option (List (TaskInfo × List ℕ) × TaskQueue)
  pop_next (returned (taken t)) f = elim (f t.rest) [
    | none ↦ none
    | some (ts, q) ↦ some ((t.info, t.bytes) ∷ ts, q)
  ]
  pop_next _ f = none

  -- `n` calls of `yf_task_pop` that each take a task.
  unfoldable pub pop_all : ℕ → TaskQueue → Option (List (TaskInfo × List ℕ) × TaskQueue)
  pop_all zero q = some ([], q)
  pop_all (suc n) q = pop_next (task_pop layout q none) (pop_all n)

  abbrev pub sent : Message → TaskInfo × List ℕ
  sent m = (m.info, m.task)

  pub data AllShort : List Message → Type 0 where
    all_nil : AllShort []
    all_cons :
        {m : Message} {ms : List Message} → length m.task < 2 ^ 32 → AllShort ms → AllShort (m ∷ ms)

  length-wire :
      (ms ns : List Message)
      → length (wire layout (ms ++ ns)) ≡ length (wire layout ms) + length (wire layout ns)
  unfolding wire
  length-wire [] ns = omega arith
  length-wire (m ∷ ms) ns =
      let rest = length-wire ms ns in
      omega (
        arith,
        length-append (frame layout m) (wire layout (ms ++ ns)),
        length-append (frame layout m) (wire layout ms),
        rest,
      )

  length-one :
      (m : Message) (ms : List Message)
      → length (wire layout (m ∷ ms)) ≡ length (frame layout m) + length (wire layout ms)
  unfolding wire
  length-one m ms = length-append (frame layout m) (wire layout ms)

  push_all-Holds :
      (q : TaskQueue) (held ms : List Message)
      → Holds layout q held
      → AllShort ms
      → q.capacity ≤ 2 ^ 64
      → length (wire layout held) + length (wire layout ms) < q.capacity
      → (q' : TaskQueue) × (push_all ms q ≡ some q')
        × (q'.capacity ≡ q.capacity)
        × Holds layout q' (held ++ ms)
  unfolding push_all push_next
  push_all-Holds q held [] h short word room =
      (q, refl, refl, subst (Holds layout q) (sym (append-nil held)) h)
  push_all-Holds q held (m ∷ ms) h (all_cons s short) word room =
      let l = length-frame layout m in
      let one = length-one m ms in
      let (q1, e, c, h1) = task_push-Holds layout q held m h (omega arith) (omega arith) in
      let both = length-wire held (m ∷ []) in
      let single = length-one m [] in
      let none_left : length (wire layout []) ≡ 0 = unfold wire in refl in
      let (q2, e2, c2, h2) =
        push_all-Holds q1 (held ++ (m ∷ [])) ms h1 short (omega arith) (omega arith) in
      (
        q2,
        ap (λ k. push_next k (push_all ms)) e ∙ e2,
        c2 ∙ c,
        subst (Holds layout q2) (append_assoc held (m ∷ []) ms) h2,
      )

  pop_all-Holds :
      (q : TaskQueue) (ms rest : List Message)
      → Holds layout q (ms ++ rest)
      → AllShort ms
      → (q' : TaskQueue) × (pop_all (length ms) q ≡ some (map sent ms, q')) × Holds layout q' rest
  unfolding pop_all pop_next
  pop_all-Holds q [] rest h short = (q, refl, h)
  pop_all-Holds q (m ∷ ms) rest h (all_cons s short) =
      let (q1, e, c, h1) =
        task_pop-Holds layout q (ms ++ rest) m none h s (unfold too_small in refl) in
      let (q2, e2, h2) = pop_all-Holds q1 ms rest h1 short in
      (
        q2,
        ap (λ k. pop_next k (pop_all (length ms))) e
            ∙ ap
                (λ k.
                  pop_next (returned (taken (record { info = m.info; bytes = m.task; rest = q1 })))
                    (λ z. k))
                e2,
        h2,
      )

  -- A fresh ring holds nothing.
  init-Holds :
      (queue : TaskQueue) (tq_head_len size : ℕ)
      → queue.magic ≢ magic_val
      → tq_head_len < size
      → length queue.area ≡ size - tq_head_len
      → ((init_task_queue tq_head_len queue size).capacity ≡ size - tq_head_len)
        × Holds layout (init_task_queue tq_head_len queue size) []
  unfolding init_task_queue pending stored wire buf_size
  init-Holds queue hl size fresh big long =
      let z = buf_size-lt (size - hl) 0 0 (omega arith) (omega arith) in
      rw (ne→== _ _ fresh, gt→leb size hl big)
        (
          refl,
          record {
            valid = record {
              marked = refl;
              as_long = long;
              reads_in = omega arith;
              writes_in = omega arith;
            };
            bytes = unfold buf_size in ap (λ k. take k (turn 0 queue.area)) z;
          },
        )

  -- In memory without the magic value, of a size above the header's and up to 2^64 whose ring has
  -- the size without the header: after `yf_init_task_queue`, pushing messages of less than 2^32
  -- bytes each whose records together take less than the ring succeeds for each, and as many pops
  -- without a size limit then take the same tasks in the same order and leave the queue empty.
  pub fifo :
      (queue : TaskQueue) (tq_head_len size : ℕ) (ms : List Message)
      → queue.magic ≢ magic_val
      → tq_head_len < size
      → size ≤ 2 ^ 64
      → length queue.area ≡ size - tq_head_len
      → AllShort ms
      → length (wire layout ms) < size - tq_head_len
      → (q' : TaskQueue) × (q'' : TaskQueue) × (push_all ms (init_task_queue tq_head_len queue size)
          ≡ some q')
        × (pop_all (length ms) q' ≡ some (map sent ms, q''))
        × Holds layout q'' []
  fifo queue hl size ms fresh big word long short room =
      let (c, h) = init-Holds queue hl size fresh big long in
      let none_held : length (wire layout []) ≡ 0 = unfold wire in refl in
      let (q1, e1, c1, h1) = push_all-Holds _ [] ms h short (omega arith) (omega arith) in
      let (q2, e2, h2) =
        pop_all-Holds q1 ms [] (subst (Holds layout q1) (sym (append-nil ms)) h1) short in
      (q1, q2, e1, e2, h2)
