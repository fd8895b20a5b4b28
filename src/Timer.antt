-- ===== src/Timer.antt =====
-- src/mio_driver/event_in/yf_tm_event_in.h and yf_tm_event_in.c: the timers of the event driver,
-- in a wheel of near lists, a wheel of far lists, and a list of those that are too far.
pub mod Poll
pub mod Rearm
pub mod Expire
pub mod Walk
pub mod Check
pub mod Due
pub mod Endless
pub mod Wheel
pub mod Start
pub mod Near
pub mod Delete
use yifei.Prelude.{
  ℕ, zero, suc, ◌+◌, ◌-◌, ◌*◌, ◌/◌, ◌%◌, ◌^◌, max, Bool, true, false, not, ◌&&◌, Option, none, some,
  List, [], ◌∷◌, ◌++◌, ltb, leb, ◌==◌, if◌then◌else◌, get_or, set, replicate,
}
use yifei.Core.{Status, success, failure, Checked, returned, assert_failed}
use yifei.BitOp.{yf_mod, align}

-- `YF_TIMER_PRCS_MS_BIT` and the sizes that follow from it.
abbrev pub prcs_ms_bit : ℕ
prcs_ms_bit = 1

abbrev pub prcs_ms : ℕ
prcs_ms = 2

abbrev pub far_roll_size : ℕ
far_roll_size = 1024

abbrev pub far_prcs_ms_bit : ℕ
far_prcs_ms_bit = 7

abbrev pub far_prcs_ms : ℕ
far_prcs_ms = 128

abbrev pub near_ms_dist : ℕ
near_ms_dist = 256

abbrev pub far_ms_dist : ℕ
far_ms_dist = 131072

abbrev pub near_roll_size : ℕ
near_roll_size = 128

-- The list heads of the driver.
pub data Spot : Type 0 where
  near far : ℕ → Spot
  too_far : Spot

-- `yf_timer_t`: `linked` is the list that the links of `linker` lead into, and `head` the field of
-- that name. A time is its number of milliseconds on the driver's clock, which does not go back.
pub record Timer : Type 0 where
  pub linked : Option Spot
  pub head : Option Spot
  pub time_start : ℕ
  pub time_out_ms : ℕ
  pub is_fd_evt : Bool

abbrev pub zero_timer : Timer
zero_timer = record {
  linked = none;
  head = none;
  time_start = 0;
  time_out_ms = 0;
  is_fd_evt = false;
}

-- `yf_tm_evt_driver_in_t`. Timers have numbers, and a list holds their numbers. The two words of
-- `near_tm_flags` are the list of their 128 bits, the lowest first.
pub record TmDriver : Type 0 where
  pub timers : ℕ → Timer
  pub stm_evts_num : ℕ
  pub fdtm_evts_num : ℕ
  pub far_tm_period_cnt : ℕ
  pub too_far_tm_period_cnt : ℕ
  pub timeout_list : List ℕ
  pub free_list : List ℕ
  pub too_far_tm_list : List ℕ
  pub far_tm_roll_index : ℕ
  pub far_tm_lists : List (List ℕ)
  pub near_tm_lists : List (List ℕ)
  pub near_tm_flags : List Bool
  pub near_evts_num : ℕ
  pub near_tm_roll_index : ℕ
  pub tm_period_cnt : ℕ
  pub nearest_timeout_ms : ℕ

-- `yf_far_timer_inc` and `yf_near_timer_inc`
unfoldable pub far_timer_inc : TmDriver → ℕ → ℕ
far_timer_inc d i = yf_mod (d.far_tm_roll_index + i) far_roll_size

unfoldable pub near_timer_inc : TmDriver → ℕ → ℕ
near_timer_inc d i = yf_mod (d.near_tm_roll_index + i) near_roll_size

unfoldable pub set_timer : (ℕ → Timer) → ℕ → Timer → ℕ → Timer
set_timer timers t v u = if t == u then v else timers u

abbrev pub with_timer : TmDriver → ℕ → Timer → TmDriver
with_timer d t v = record d { timers = set_timer d.timers t v }

-- The parts of one list, and a driver with other parts there.
unfoldable pub list_at : TmDriver → Spot → List ℕ
list_at d (near i) = get_or d.near_tm_lists i []
list_at d (far i) = get_or d.far_tm_lists i []
list_at d too_far = d.too_far_tm_list

unfoldable pub with_list : TmDriver → Spot → List ℕ → TmDriver
with_list d (near i) xs = record d { near_tm_lists = set d.near_tm_lists i xs }
with_list d (far i) xs = record d { far_tm_lists = set d.far_tm_lists i xs }
with_list d too_far xs = record d { too_far_tm_list = xs }

unfoldable pub without : ℕ → List ℕ → List ℕ
without t [] = []
without t (x ∷ xs) = if t == x then xs else x ∷ without t xs

-- `yf_list_add_tail(&timer->linker, list)`, and `LIST_ADD_TIMER`, which sets `head` too.
unfoldable pub add_tail : TmDriver → ℕ → Spot → TmDriver
unfolding list_at with_list
add_tail d t spot =
    with_timer (with_list d spot (list_at d spot ++ (t ∷ []))) t
      (record (d.timers t) { linked = some spot })

unfoldable pub list_add_timer : TmDriver → ℕ → Spot → TmDriver
unfolding list_at with_list
list_add_timer d t spot =
    with_timer (with_list d spot (list_at d spot ++ (t ∷ []))) t
      (record (d.timers t) { linked = some spot; head = some spot })

unfoldable pub del_from : TmDriver → ℕ → Option Spot → TmDriver
unfolding list_at with_list without
del_from d t none = d
del_from d t (some spot) =
    with_timer (with_list d spot (without t (list_at d spot))) t
      (record (d.timers t) { linked = none })

-- `yf_list_del(&timer->linker)`
unfoldable pub list_del : TmDriver → ℕ → TmDriver
unfolding del_from
list_del d t = del_from d t (d.timers t).linked

-- `yf_list_linked(&timer->linker)`
unfoldable pub is_linked : Option Spot → Bool
is_linked none = false
is_linked (some spot) = true

-- `yf_add_near_timer`
unfoldable pub add_near_timer : TmDriver → ℕ → ℕ → Checked TmDriver
unfolding list_add_timer near_timer_inc
add_near_timer d t ms =
    let index = ms / 2 ^ prcs_ms_bit - 1 in
    let d' = record (list_add_timer d t (near (near_timer_inc d index))) {
      near_tm_flags = set d.near_tm_flags index true;
      near_evts_num = (d.near_evts_num + 1) % 2 ^ 32;
    } in
    if leb prcs_ms ms && leb ms near_ms_dist
    then returned
        (if ltb ms d.nearest_timeout_ms then record d' { nearest_timeout_ms = ms } else d')
    else assert_failed

-- The beginning of `yf_add_timer`: a linked timer leaves its list, another is counted.
unfoldable pub leave_or_count : TmDriver → ℕ → TmDriver
unfolding list_del is_linked
leave_or_count d t =
    if is_linked (d.timers t).linked
    then list_del d t
    else if (d.timers t).is_fd_evt
    then record d { fdtm_evts_num = (d.fdtm_evts_num + 1) % 2 ^ 32 }
    else record d { stm_evts_num = (d.stm_evts_num + 1) % 2 ^ 32 }

-- The rest of it, for the aligned time.
unfoldable pub add_by_distance : TmDriver → ℕ → ℕ → Checked TmDriver
unfolding add_tail list_add_timer far_timer_inc add_near_timer
add_by_distance d t ms =
    let pass_mod_ms = yf_mod (d.tm_period_cnt * 2 ^ prcs_ms_bit) far_prcs_ms in
    let diff_ms = ms - (far_prcs_ms - pass_mod_ms) in
    let index = far_timer_inc d (diff_ms / 2 ^ far_prcs_ms_bit) in
    if leb far_ms_dist ms
    then returned (add_tail d t too_far)
    else if leb near_ms_dist ms
    then returned (list_add_timer d t (far index))
    else add_near_timer d t ms

-- `yf_add_timer`. `tm_ms` has 30 bits in a timer, so it is not negative as a `yf_s32_t`.
unfoldable pub add_timer : TmDriver → ℕ → ℕ → Checked TmDriver
unfolding leave_or_count add_by_distance
add_timer d t tm_ms = add_by_distance (leave_or_count d t) t (align (max prcs_ms tm_ms) prcs_ms)

-- The flags after a list became `rest`: an empty list loses its flag.
abbrev pub flags_of : List Bool → ℕ → List ℕ → List Bool
flags_of flags i [] = set flags i false
flags_of flags i (x ∷ xs) = flags

-- The part of `yf_del_timer` behind `yf_list_del`, by the field `head`.
unfoldable pub leave_head : TmDriver → Option Spot → TmDriver
leave_head d (some (near i)) =
    let index = yf_mod (i + near_roll_size - d.near_tm_roll_index) near_roll_size in
    let flags = flags_of d.near_tm_flags index (get_or d.near_tm_lists i []) in
    record d { near_tm_flags = flags; near_evts_num = (d.near_evts_num + (2 ^ 32 - 1)) % 2 ^ 32 }
leave_head d (some (far i)) = d
leave_head d (some too_far) = d
leave_head d none = d

-- The count of a kind of timers goes down, as a `yf_u32_t`.
unfoldable pub uncount : TmDriver → ℕ → TmDriver
uncount d t =
    if (d.timers t).is_fd_evt
    then record d { fdtm_evts_num = (d.fdtm_evts_num + (2 ^ 32 - 1)) % 2 ^ 32 }
    else record d { stm_evts_num = (d.stm_evts_num + (2 ^ 32 - 1)) % 2 ^ 32 }

-- `yf_del_timer`
unfoldable pub del_timer : TmDriver → ℕ → Status × TmDriver
unfolding is_linked uncount list_del leave_head
del_timer d t =
    if is_linked (d.timers t).linked
    then (success, leave_head (list_del (uncount d t) t) (d.timers t).head)
    else (failure, d)

-- `yf_on_time_reset`
unfoldable pub on_time_reset : TmDriver → TmDriver
on_time_reset d = record d { tm_period_cnt = 0; far_tm_period_cnt = 0; too_far_tm_period_cnt = 0 }

-- `yf_alloc_tm_evt`: an event that is not in use, zeroed.
unfoldable pub alloc_tm_evt : TmDriver → Status × Option ℕ × TmDriver
alloc_tm_evt d = elim d.free_list [
  | [] ↦ (failure, none, d)
  | t ∷ ts ↦ (success, some t, record (with_timer d t zero_timer) { free_list = ts })
]

-- `yf_free_tm_evt`
unfoldable pub free_tm_evt : TmDriver → ℕ → Status × TmDriver
unfolding del_timer
free_tm_evt d t =
    let d' = (del_timer d t).1 in
    if (d'.timers t).is_fd_evt
    then (failure, d')
    else (success, record d' { free_list = t ∷ d'.free_list })

-- `yf_register_tm_evt`, with `yf_set_timer_val`: the time-out is a field of 30 bits.
unfoldable pub register_tm_evt : TmDriver → ℕ → (now time_out : ℕ) → Checked TmDriver
unfolding add_timer
register_tm_evt d t now time_out =
    let timer = record (d.timers t) {
      time_out_ms = time_out % 2 ^ 30;
      time_start = now;
      is_fd_evt = false;
    } in
    add_timer (with_timer d t timer) t timer.time_out_ms

-- `yf_unregister_tm_evt`
unfoldable pub unregister_tm_evt : TmDriver → ℕ → Status × TmDriver
unfolding del_timer
unregister_tm_evt d t = del_timer d t
