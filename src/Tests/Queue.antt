-- ===== src/Tests/Queue.antt =====
-- A task queue of sixty bytes in which a task's header takes thirteen.
use yifei.Prelude.{
  ℕ, zero, suc, ◌+◌, ◌≡◌, refl, List, [], ◌∷◌, ◌++◌, arith, length, some, map, replicate,
}
use yifei.Prelude.Int.{ℤ, pos, negsuc}
use yifei.Core.{success, failure, magic_val, returned}
use yifei.TaskQueue.{
  TaskInfo, TaskHead, HeadLayout, TaskQueue, init_task_queue, task_push, task_pop, taken, too_small,
  buf_size,
}
use yifei.TaskQueue.Stored.{pending, stored}
use yifei.TaskQueue.Refine.{
  Message, frame, wire, Holds, task_push-Holds, task_push_full, task_pop-Holds,
}
use yifei.TaskQueue.Fifo.{push_all, pop_all, sent, all_nil, all_cons, fifo}

sign : ℤ → ℕ
sign (pos n) = 0
sign (negsuc n) = 1

magnitude : ℤ → ℕ
magnitude (pos n) = n
magnitude (negsuc n) = n

decode_ℤ : ℕ → ℕ → ℤ
decode_ℤ zero n = pos n
decode_ℤ (suc s) n = negsuc n

decode_ℤ-sign : (z : ℤ) → decode_ℤ (sign z) (magnitude z) ≡ z
unfolding decode_ℤ sign magnitude
decode_ℤ-sign (pos n) = refl
decode_ℤ-sign (negsuc n) = refl

encode : TaskHead → List ℕ
encode h =
    let i = h.task_info in
    h.magic
    ∷ h.task_len
    ∷ h.inqueue_time
    ∷ i.id
    ∷ i.timeout_ms
    ∷ i.timeout
    ∷ i.error
    ∷ sign i.inqueue_sec
    ∷ magnitude i.inqueue_sec
    ∷ sign i.inqueue_msec
    ∷ magnitude i.inqueue_msec
    ∷ sign i.status
    ∷ magnitude i.status
    ∷ []

no_head : TaskHead
no_head = record {
  magic = 0;
  task_len = 0;
  inqueue_time = 0;
  task_info = record {
    id = 0;
    inqueue_sec = pos 0;
    inqueue_msec = pos 0;
    status = pos 0;
    timeout_ms = 0;
    timeout = 0;
    error = 0;
  };
}

decode : List ℕ → TaskHead
decode (m ∷ l ∷ t ∷ i ∷ ms ∷ o ∷ e ∷ a ∷ b ∷ c ∷ d ∷ f ∷ g ∷ []) = record {
  magic = m;
  task_len = l;
  inqueue_time = t;
  task_info = record {
    id = i;
    inqueue_sec = decode_ℤ a b;
    inqueue_msec = decode_ℤ c d;
    status = decode_ℤ f g;
    timeout_ms = ms;
    timeout = o;
    error = e;
  };
}
decode _ = no_head

decode-encode_lem : (h : TaskHead) → decode (encode h) ≡ h
unfolding encode decode
decode-encode_lem h = λ j. record h {
  task_info = record h.task_info {
    inqueue_sec = decode_ℤ-sign h.task_info.inqueue_sec j;
    inqueue_msec = decode_ℤ-sign h.task_info.inqueue_msec j;
    status = decode_ℤ-sign h.task_info.status j;
  };
}

length-encode_lem : (h : TaskHead) → length (encode h) ≡ 13
unfolding encode
length-encode_lem h = refl

abbrev layout : HeadLayout
layout = record {
  head_size = 13;
  encode = encode;
  decode = decode;
  length-encode = length-encode_lem;
  decode-encode = decode-encode_lem;
}

abbrev info : TaskInfo
info = record {
  id = 7;
  inqueue_sec = pos 5;
  inqueue_msec = pos 0;
  status = negsuc 0;
  timeout_ms = 100;
  timeout = 0;
  error = 0;
}

abbrev one : Message
one = record { info = info; task = 1 ∷ 2 ∷ 3 ∷ []; time = 5 }

abbrev empty_task : Message
empty_task = record { info = info; task = []; time = 6 }

-- Memory of sixty bytes behind the queue's own header of four.
abbrev fresh : TaskQueue
fresh = record { magic = 0; capacity = 0; read_offset = 0; write_offset = 0; area = replicate 60 0 }

length-frame_one : (m : Message) → length (frame layout m) ≡ 13 + length m.task
unfolding frame encode
length-frame_one m = omega arith

length-wire_two : length (wire layout (one ∷ empty_task ∷ [])) ≡ 29
unfolding wire frame encode
length-wire_two = refl

fifo_example :
    (q' : TaskQueue) × (q'' : TaskQueue) × (push_all layout
        (one ∷ empty_task ∷ [])
        (init_task_queue 4 fresh 64)
      ≡ some q')
    × (pop_all layout 2 q' ≡ some (map (sent layout) (one ∷ empty_task ∷ []), q''))
    × Holds layout q'' []
fifo_example =
    fifo layout fresh 4 64 (one ∷ empty_task ∷ []) (omega arith) (omega arith) (omega arith) refl
      (all_cons (omega arith) (all_cons (omega arith) all_nil)) (omega (arith, length-wire_two))

-- A ring of twenty bytes that holds nothing, and one that holds a task going round its end.
abbrev ring : List ℕ → ℕ → ℕ → TaskQueue
ring area r w = record {
  magic = magic_val;
  capacity = length area;
  read_offset = r;
  write_offset = w;
  area = area;
}

abbrev empty_ring : TaskQueue
empty_ring = ring (replicate 20 0) 15 15

abbrev full_ring : TaskQueue
full_ring =
    ring
      (100 ∷ 0 ∷ 0 ∷ 0 ∷ 5 ∷ 0 ∷ 0 ∷ 1 ∷ 0 ∷ 1 ∷ 2 ∷ 3 ∷ 0 ∷ 0 ∷ 0 ∷ 0 ∷ magic_val ∷ 3 ∷ 5 ∷ 7 ∷ [])
      16 12

empty_ring-Holds : Holds layout empty_ring []
unfolding pending stored wire buf_size
empty_ring-Holds = record {
  valid = record { marked = refl; as_long = refl; reads_in = omega arith; writes_in = omega arith };
  bytes = refl;
}

full_ring-Holds : Holds layout full_ring (one ∷ [])
unfolding pending stored wire frame buf_size encode sign magnitude
full_ring-Holds = record {
  valid = record { marked = refl; as_long = refl; reads_in = omega arith; writes_in = omega arith };
  bytes = refl;
}

nothing : length (wire layout []) ≡ 0
unfolding wire
nothing = refl

length-wire-one : length (wire layout (one ∷ [])) ≡ 16
unfolding wire frame encode
length-wire-one = refl

task_push_example :
    (q' : TaskQueue) × (task_push layout empty_ring one.info one.task one.time
      ≡ returned (success, q'))
    × (q'.capacity ≡ 20)
    × Holds layout q' ([] ++ (one ∷ []))
task_push_example =
    task_push-Holds layout empty_ring [] one empty_ring-Holds (omega arith)
      (omega (arith, nothing, length-frame_one one))

task_push_full_example :
    task_push layout full_ring one.info one.task one.time ≡ returned (failure, full_ring)
task_push_full_example =
    task_push_full layout full_ring (one ∷ []) one full_ring-Holds (omega arith)
      (omega (arith, length-wire-one, length-frame_one one))

task_pop_example :
    (q' : TaskQueue) × (task_pop layout full_ring (some 3)
      ≡ returned (taken (record { info = one.info; bytes = one.task; rest = q' })))
    × (q'.capacity ≡ 20)
    × Holds layout q' []
task_pop_example =
    task_pop-Holds layout full_ring [] one (some 3) full_ring-Holds (omega arith)
      (unfold too_small in refl)
