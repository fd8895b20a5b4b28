-- ===== src/TaskQueue/Refine.antt =====
-- The task queue as a queue of messages: what `yf_task_push` appends, `yf_task_pop` takes.
use native.Mathlib.Nat.{mod-eq_of_lt}
use yifei.Prelude.{
  ℕ, suc, ◌+◌, ◌%◌, ◌^◌, ◌≤◌, ◌<◌, ◌≡◌, refl, sym, ap, ◌∙◌, true, false, List, [], ◌∷◌, ◌++◌,
  append_assoc, append-nil, if◌then◌else◌, arith, some, Option, length, length-append, eq→==, ne→==,
  le→leb, gt→leb,
}
use yifei.Core.{success, failure, again, magic_val, returned}
use yifei.TaskQueue.{
  TaskInfo, TaskHead, HeadLayout, TaskQueue, buf_size, free_capacity, buf_get, head_of, task_push,
  taken, refused, task_pop, pop_head, pop_body, too_small,
}
use yifei.TaskQueue.Ring.{buf_get_lem, buf_get_again}
use yifei.TaskQueue.Stored.{
  stored, pending, IsValid, length-stored, free_capacity_lem, stored-Takes, two_adds,
}

-- A task, as the sender hands it over at the clock's second `time`.
pub record Message : Type 0 where
  pub info : TaskInfo
  pub task : List ℕ
  pub time : ℕ

module _ (layout : HeadLayout) where
  open layout use {head_size, encode, decode, length-encode, decode-encode}

  -- The bytes of a message in the queue.
  unfoldable pub frame : Message → List ℕ
  frame m = encode (head_of layout m.info m.task m.time) ++ m.task

  unfoldable pub wire : List Message → List ℕ
  wire [] = []
  wire (m ∷ ms) = frame m ++ wire ms

  -- The queue holds these messages, the oldest first; the length of each fits its header's field.
  pub record Holds (q : TaskQueue) (ms : List Message) : Type 0 where
    pub valid : IsValid q
    pub bytes : pending q ≡ wire ms

  pub length-frame : (m : Message) → length (frame m) ≡ head_size + length m.task
  unfolding frame
  length-frame m =
      length-append (encode (head_of layout m.info m.task m.time)) m.task
      ∙ ap (λ k. k + length m.task) (length-encode _)

  pub wire-append : (ms : List Message) (m : Message) → wire (ms ++ (m ∷ [])) ≡ wire ms ++ frame m
  unfolding wire
  wire-append [] m = append-nil (frame m)
  wire-append (x ∷ ms) m =
      ap (λ k. frame x ++ k) (wire-append ms m) ∙ sym (append_assoc (frame x) (wire ms) (frame m))

  -- On a queue that holds the messages `ms`, when the required length does not overflow 64 bits
  -- and the records of `ms` and of `m` together take less than the capacity, `yf_task_push` of
  -- `m` succeeds, keeps the capacity, and the queue then holds `ms` followed by `m`.
  pub task_push-Holds :
      (q : TaskQueue) (ms : List Message) (m : Message)
      → Holds q ms
      → length m.task + head_size < 2 ^ 64
      → length (wire ms) + length (frame m) < q.capacity
      → (q' : TaskQueue) × (task_push layout q m.info m.task m.time ≡ returned (success, q'))
        × (q'.capacity ≡ q.capacity)
        × Holds q' (ms ++ (m ∷ []))
  unfolding task_push
  task_push-Holds q ms m h word room =
      let v = h.valid in
      let len = length-frame m in
      let free = free_capacity_lem q v in
      let count = ap length h.bytes in
      let size =
        length-stored q.capacity q.area q.read_offset q.write_offset v.as_long v.reads_in in
      let req : (length m.task + head_size) % 2 ^ 64 ≡ length m.task + head_size =
        mod-eq_of_lt word in
      let head = encode (head_of layout m.info m.task m.time) in
      let hl : length head ≡ head_size = length-encode _ in
      let g =
        two_adds q.capacity q.area q.read_offset q.write_offset head m.task v.as_long v.reads_in
          v.writes_in (unfold pending in omega arith) in
      rw
        (
          eq→== _ _ v.marked,
          req,
          gt→leb (free_capacity q) (length m.task + head_size) (omega arith),
        )
        (
          _,
          refl,
          refl,
          record {
            valid = record {
              marked = v.marked;
              as_long = g.as_long;
              reads_in = v.reads_in;
              writes_in = g.inside;
            };
            bytes =
                unfold pending frame in
                g.bytes ∙ ap (λ k. k ++ (head ++ m.task)) h.bytes ∙ sym (wire-append ms m);
          },
        )

  -- The bytes at the front of the queue, as `yf_tq_buf_get` takes them.
  record Front (q : TaskQueue) (r : ℕ) (xs ys : List ℕ) : Type 0 where
    next : ℕ
    taken_eq : buf_get q r (length xs) ≡ some (xs, next)
    next_in : next < q.capacity
    behind : stored q.capacity q.area next q.write_offset ≡ ys

  front :
      (q : TaskQueue) (r : ℕ) (xs ys : List ℕ)
      → IsValid q
      → r < q.capacity
      → stored q.capacity q.area r q.write_offset ≡ xs ++ ys
      → Front q r xs ys
  front q r xs ys v rin e =
      let size = length-stored q.capacity q.area r q.write_offset v.as_long rin in
      let count = ap length e ∙ length-append xs ys in
      let (res, eq, t) = buf_get_lem q r (length xs) v.as_long rin v.writes_in (omega arith) in
      let s = stored-Takes q r (length xs) res xs ys v.as_long rin e refl t in
      record {
        next = res.1;
        taken_eq = eq ∙ ap (λ k. some (k, res.1)) s.0;
        next_in = t.inside;
        behind = s.1;
      }

  reads_head :
      (q : TaskQueue) (limit : Option ℕ) (h : TaskHead) (off : ℕ)
      → q.magic ≡ magic_val
      → buf_get q q.read_offset head_size ≡ some (encode h, off)
      → task_pop layout q limit ≡ pop_head layout q limit h off
  unfolding task_pop
  reads_head q limit h off mark e =
      rw (eq→== _ _ mark, e) (ap (λ k. pop_head layout q limit k off) (decode-encode h))

  passes_head :
      (q : TaskQueue) (limit : Option ℕ) (h : TaskHead) (off : ℕ)
      → h.magic ≡ magic_val
      → pop_head layout q limit h off ≡ (
          if too_small layout limit h.task_len
          then returned (refused failure)
          else returned (pop_body layout q h off))
  unfolding pop_head
  passes_head q limit h off mark = rw (eq→== _ _ mark) refl

  -- Taking the bytes of a task that stands at the offset `r`.
  takes_body :
      (q : TaskQueue) (h : TaskHead) (r : ℕ) (xs ys : List ℕ)
      → IsValid q
      → r < q.capacity
      → h.task_len ≡ length xs
      → stored q.capacity q.area r q.write_offset ≡ xs ++ ys
      → (off : ℕ) × (pop_body layout q h r
          ≡ taken
              (record { info = h.task_info; bytes = xs; rest = record q { read_offset = off } }))
        × (off < q.capacity)
        × (stored q.capacity q.area off q.write_offset ≡ ys)
  unfolding pop_body
  takes_body q h r [] ys v rin e s = rw e (r, refl, rin, s)
  takes_body q h r (x ∷ xs) ys v rin e s =
      let f = front q r (x ∷ xs) ys v rin s in
      rw (e, ne→== (suc (length xs)) 0 (omega arith), f.taken_eq)
        (f.next, refl, f.next_in, f.behind)

  first_head :
      (q : TaskQueue) (ms : List Message) (m : Message)
      → Holds q (m ∷ ms)
      → Front q q.read_offset (encode (head_of layout m.info m.task m.time)) (m.task ++ wire ms)
  unfolding pending wire frame
  first_head q ms m h =
      let head = encode (head_of layout m.info m.task m.time) in
      front q q.read_offset head (m.task ++ wire ms) h.valid h.valid.reads_in
        (h.bytes ∙ append_assoc head m.task (wire ms))

  reads_first :
      (q : TaskQueue) (ms : List Message) (m : Message) (limit : Option ℕ) (h : Holds q (m ∷ ms))
      → length m.task < 2 ^ 32
      → (let head = head_of layout m.info m.task m.time in
          task_pop layout q limit ≡ (
            if too_small layout limit (length m.task)
            then returned (refused failure)
            else returned (pop_body layout q head (first_head q ms m h).next)))
  reads_first q ms m limit h word =
      let head = head_of layout m.info m.task m.time in
      let f = first_head q ms m h in
      reads_head q limit head f.next h.valid.marked
        (ap (buf_get q q.read_offset) (sym (length-encode head)) ∙ f.taken_eq)
      ∙ passes_head q limit head f.next refl
      ∙ ap
          (λ k.
            if too_small layout limit k
            then returned (refused failure)
            else returned (pop_body layout q head f.next))
          (mod-eq_of_lt word)

  -- On a queue whose first message is `m`, shorter than 2^32 bytes and not longer than the
  -- caller's buffer, `yf_task_pop` takes the information and the bytes of `m`, keeps the
  -- capacity, and the queue then holds the other messages.
  pub task_pop-Holds :
      (q : TaskQueue) (ms : List Message) (m : Message) (limit : Option ℕ)
      → Holds q (m ∷ ms)
      → length m.task < 2 ^ 32
      → too_small layout limit (length m.task) ≡ false
      → (q' : TaskQueue) × (task_pop layout q limit
          ≡ returned (taken (record { info = m.info; bytes = m.task; rest = q' })))
        × (q'.capacity ≡ q.capacity)
        × Holds q' ms
  task_pop-Holds q ms m limit h word big =
      let f = first_head q ms m h in
      let (off, e, inside, s) =
        takes_body q (head_of layout m.info m.task m.time) f.next m.task (wire ms) h.valid f.next_in
          (mod-eq_of_lt word) f.behind in
      (
        record q { read_offset = off },
        reads_first q ms m limit h word
            ∙ ap
                (λ k.
                  if k
                  then returned (refused failure)
                  else returned (pop_body layout q (head_of layout m.info m.task m.time) f.next))
                big
            ∙ ap returned e,
        refl,
        record {
          valid = record {
            marked = h.valid.marked;
            as_long = h.valid.as_long;
            reads_in = inside;
            writes_in = h.valid.writes_in;
          };
          bytes = unfold pending in s;
        },
      )

  -- On a queue whose first message is `m`, shorter than 2^32 bytes but longer than the caller's
  -- buffer, `yf_task_pop` fails and takes nothing.
  pub task_pop-too_small :
      (q : TaskQueue) (ms : List Message) (m : Message) (limit : Option ℕ)
      → Holds q (m ∷ ms)
      → length m.task < 2 ^ 32
      → too_small layout limit (length m.task) ≡ true
      → task_pop layout q limit ≡ returned (refused failure)
  task_pop-too_small q ms m limit h word big =
      let body =
        pop_body layout q (head_of layout m.info m.task m.time) (first_head q ms m h).next in
      reads_first q ms m limit h word
      ∙ ap (λ k. if k then returned (refused failure) else returned body) big

  -- On a queue that holds no message, when a header takes at least one byte, `yf_task_pop`
  -- answers `YF_AGAIN`, with and without a size limit.
  task_pop_empty :
      (q : TaskQueue) (limit : Option ℕ)
      → 0 < head_size
      → Holds q []
      → task_pop layout q limit ≡ returned (refused again)
  unfolding task_pop wire pending
  task_pop_empty q limit pos h =
      let size =
        length-stored q.capacity q.area q.read_offset q.write_offset h.valid.as_long
          h.valid.reads_in in
      let none_left : buf_size q.capacity q.read_offset q.write_offset ≡ 0 =
        omega (arith, size, ap length h.bytes) in
      rw
        (
          eq→== _ _ h.valid.marked,
          buf_get_again q q.read_offset head_size h.valid.as_long h.valid.reads_in h.valid.writes_in
              (omega arith),
        )
        refl

  -- On a queue that holds the messages `ms`, when the required length does not overflow 64 bits
  -- and the records of `ms` and of `m` together take the capacity or more, `yf_task_push` of `m`
  -- fails and leaves the queue as it was.
  pub task_push_full :
      (q : TaskQueue) (ms : List Message) (m : Message)
      → Holds q ms
      → length m.task + head_size < 2 ^ 64
      → q.capacity ≤ length (wire ms) + length (frame m)
      → task_push layout q m.info m.task m.time ≡ returned (failure, q)
  unfolding task_push
  task_push_full q ms m h word room =
      let len = length-frame m in
      let free = free_capacity_lem q h.valid in
      let count = ap length h.bytes in
      let req : (length m.task + head_size) % 2 ^ 64 ≡ length m.task + head_size =
        mod-eq_of_lt word in
      rw
        (
          eq→== _ _ h.valid.marked,
          req,
          le→leb (free_capacity q) (length m.task + head_size) (omega arith),
        )
        refl
