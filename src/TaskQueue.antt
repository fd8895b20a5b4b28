-- ===== src/TaskQueue.antt =====
-- src/bridge/bridge_in/yf_bridge_task.h and yf_bridge_task.c: the queue of tasks in a shared
-- buffer, a ring of bytes in which a header and the task's bytes follow each other.
pub mod Ring
pub mod Refine
pub mod Stored
pub mod Fifo
use yifei.Prelude.{
  ℕ, ◌+◌, ◌-◌, ◌%◌, ◌^◌, ◌≡◌, Bool, Option, none, some, List, ltb, leb, ◌==◌, not, if◌then◌else◌,
  length, take, drop, ◌++◌,
}
use yifei.Prelude.Int.{ℤ}
use yifei.Bytes.{memcpy}
use yifei.Core.{Status, success, failure, again, magic_val, Checked, returned, assert_failed}

-- `task_info_t`
pub record TaskInfo : Type 0 where
  pub id : ℕ
  pub inqueue_sec : ℤ
  pub inqueue_msec : ℤ
  pub status : ℤ
  pub timeout_ms : ℕ
  pub timeout : ℕ
  pub error : ℕ

-- `yf_task_head_t`
pub record TaskHead : Type 0 where
  pub magic : ℕ
  pub task_len : ℕ
  pub inqueue_time : ℕ
  pub task_info : TaskInfo

-- How the compiler lays a `yf_task_head_t` out in memory: copying the bytes of one into another
-- yields the same value.
pub record HeadLayout : Type 0 where
  pub head_size : ℕ
  pub encode : TaskHead → List ℕ
  pub decode : List ℕ → TaskHead
  pub length-encode : (h : TaskHead) → length (encode h) ≡ head_size
  pub decode-encode : (h : TaskHead) → decode (encode h) ≡ h

-- `yf_task_queue_t`, with the bytes that `yf_tq_buf` points to.
pub record TaskQueue : Type 0 where
  pub magic : ℕ
  pub capacity : ℕ
  pub read_offset : ℕ
  pub write_offset : ℕ
  pub area : List ℕ

-- `yf_init_task_queue` on memory that reads as `queue`; `tq_head_len` is the aligned size of the
-- queue's own header.
pub init_task_queue : ℕ → TaskQueue → ℕ → TaskQueue
init_task_queue tq_head_len queue size =
    if queue.magic == magic_val
    then queue
    else if leb size tq_head_len
    then queue
    else record queue {
      magic = magic_val;
      capacity = size - tq_head_len;
      read_offset = 0;
      write_offset = 0;
    }

-- The bytes from one offset forward to another: `yf_tq_buf_size`.
unfoldable pub buf_size : ℕ → ℕ → ℕ → ℕ
buf_size capacity read_offset write_offset = (write_offset + capacity - read_offset) % capacity

-- `yf_tq_free_capacity`
pub free_capacity : TaskQueue → ℕ
free_capacity q =
    if q.read_offset == q.write_offset
    then q.capacity
    else (q.read_offset + q.capacity - q.write_offset) % q.capacity

-- `yf_tq_buf_add`: the new bytes of the ring, and the new offset.
pub buf_add : ℕ → List ℕ → ℕ → List ℕ → List ℕ × ℕ
buf_add capacity area write_off buf =
    let len = length buf in
    let tail_cap = capacity - write_off in
    if ltb len tail_cap
    then (memcpy area write_off buf len, write_off + len)
    else if len == tail_cap
    then (memcpy area write_off buf len, 0)
    else (
      memcpy (memcpy area write_off buf tail_cap) 0 (drop tail_cap buf) (len - tail_cap),
      len - tail_cap,
    )

-- `yf_tq_buf_get`: the bytes and the new offset, or `none` for `YF_AGAIN`.
pub buf_get : TaskQueue → ℕ → ℕ → Option (List ℕ × ℕ)
unfolding buf_size
buf_get q read_off len =
    let tail_cap = q.capacity - read_off in
    if ltb (buf_size q.capacity read_off q.write_offset) len
    then none
    else some (
        if ltb len tail_cap
        then (take len (drop read_off q.area), read_off + len)
        else if len == tail_cap
        then (take len (drop read_off q.area), 0)
        else (take tail_cap (drop read_off q.area) ++ take (len - tail_cap) q.area, len - tail_cap))

module _ (layout : HeadLayout) where
  open layout use {head_size, encode, decode}

  -- The header that `yf_task_push` writes: `task_len` and `inqueue_time` are 32-bit
  -- fields.
  abbrev pub head_of : TaskInfo → List ℕ → ℕ → TaskHead
  head_of info task now = record {
    magic = magic_val;
    task_len = length task % 2 ^ 32;
    inqueue_time = now % 2 ^ 32;
    task_info = info;
  }

  -- `yf_task_push`; `now` is the clock's seconds. An empty task adds no bytes, as the guard of
  -- the second `yf_tq_buf_add` says.
  pub task_push : TaskQueue → TaskInfo → List ℕ → ℕ → Checked (Status × TaskQueue)
  task_push q info task now =
      let require_len = (length task + head_size) % 2 ^ 64 in
      let (headed, head_off) =
        buf_add q.capacity q.area q.write_offset (encode (head_of info task now)) in
      let (area, write_off) =
        if length task == 0 then (headed, head_off) else buf_add q.capacity headed head_off task in
      if not (q.magic == magic_val)
      then assert_failed
      else if leb (free_capacity q) require_len
      then returned (failure, q)
      else returned (success, record q { area = area; write_offset = write_off })

  -- A task that was taken, with the queue behind it.
  pub record Task : Type 0 where
    pub info : TaskInfo
    pub bytes : List ℕ
    pub rest : TaskQueue

  -- What `yf_task_pop` answers: a task, or the code with which it leaves the queue as it was.
  pub data Popped : Type 0 where
    taken : Task → Popped
    refused : Status → Popped

  pop_body : TaskQueue → TaskHead → ℕ → Popped
  unfolding buf_get
  pop_body q head read_off =
      if head.task_len == 0
      then taken (record {
        info = head.task_info;
        bytes = List.[];
        rest = record q { read_offset = read_off };
      })
      else elim (buf_get q read_off head.task_len) [
        | none ↦ refused again
        | some (bytes, off) ↦
            taken (record {
              info = head.task_info;
              bytes = bytes;
              rest = record q { read_offset = off };
            })
      ]

  -- The comparison with the caller's buffer, when there is one.
  unfoldable pub too_small : Option ℕ → ℕ → Bool
  too_small none len = Bool.false
  too_small (some size) len = ltb size len

  pop_head : TaskQueue → Option ℕ → TaskHead → ℕ → Checked Popped
  unfolding pop_body too_small
  pop_head q limit head read_off =
      if not (head.magic == magic_val)
      then assert_failed
      else if too_small limit head.task_len
      then returned (refused failure)
      else returned (pop_body q head read_off)

  -- `yf_task_pop`; `limit` is the size of the caller's buffer, if it gives one.
  pub task_pop : TaskQueue → Option ℕ → Checked Popped
  unfolding pop_head
  task_pop q limit =
      if not (q.magic == magic_val)
      then assert_failed
      else elim (buf_get q q.read_offset head_size) [
        | none ↦ returned (refused again)
        | some (bytes, off) ↦ pop_head q limit (decode bytes) off
      ]
