-- ===== src/Timer/Poll.antt =====
-- `yf_poll_timer` of yf_tm_event_in.c: which timers run out, and which move to a nearer list.
use yifei.Prelude.{
  ℕ, zero, suc, ◌+◌, ◌-◌, ◌*◌, ◌/◌, ◌%◌, ◌^◌, max, min, Bool, true, false, not, ◌&&◌, ◌||◌, Option,
  none, some, List, [], ◌∷◌, ◌++◌, ltb, leb, ◌==◌, if◌then◌else◌, get_or, replicate, take, drop,
}
use yifei.Core.{Checked, returned, assert_failed}
use yifei.BitOp.{yf_mod, align}
use yifei.Timer.{
  TmDriver, Spot, near, far, prcs_ms, prcs_ms_bit, far_prcs_ms_bit, near_ms_dist, far_ms_dist,
  near_roll_size, far_timer_inc, with_timer, list_at, list_del, add_near_timer, add_timer,
}

infixl 5 ◌>>=◌
abbrev pub ◌>>=◌ {ℓ κ} : {A : Type ℓ} {B : Type κ} → Checked A → (A → Checked B) → Checked B
returned a >>= f = f a
assert_failed >>= f = assert_failed

-- `yf_timeout_handler`
unfoldable pub timeout_handler : Bool → TmDriver → ℕ → TmDriver
timeout_handler is_nearest d t =
    let count = if is_nearest then (d.near_evts_num + (2 ^ 32 - 1)) % 2 ^ 32 else d.near_evts_num in
    record (with_timer d t (record (d.timers t) { head = none })) {
      near_evts_num = count;
      timeout_list = t ∷ d.timeout_list;
    }

-- The loop of `yf_list_timeout_handler` over the parts of a list.
unfoldable pub expire_all : Bool → List ℕ → TmDriver → TmDriver
unfolding timeout_handler
expire_all is_nearest [] d = d
expire_all is_nearest (t ∷ ts) d =
    expire_all is_nearest ts (timeout_handler is_nearest (list_del d t) t)

unfoldable pub list_timeout_handler : Bool → TmDriver → Spot → TmDriver
unfolding expire_all
list_timeout_handler is_nearest d spot = expire_all is_nearest (list_at d spot) d

-- The indexes of the set bits among `n`, from `from` on, as `yf_bit_indexs` lists them.
unfoldable pub bit_indexs : ℕ → List Bool → List ℕ
bit_indexs from [] = []
bit_indexs from (true ∷ bits) = from ∷ bit_indexs (from + 1) bits
bit_indexs from (false ∷ bits) = bit_indexs (from + 1) bits

unfoldable pub is_nil : List ℕ → Bool
is_nil [] = true
is_nil (x ∷ xs) = false

-- The loop of `yf_check_near_timer_list` over the indexes of a part of the flags.
unfoldable pub check_indexs : ℕ → ℕ → List ℕ → TmDriver → Checked TmDriver
unfolding list_timeout_handler is_nil
check_indexs index_begin diff_periods [] d = returned d
check_indexs index_begin diff_periods (i ∷ is) d =
    let index_it = yf_mod (index_begin + i) near_roll_size in
    if not (ltb i diff_periods)
    then returned d
    else if is_nil (get_or d.near_tm_lists index_it [])
    then assert_failed
    else check_indexs index_begin diff_periods is (list_timeout_handler true d (near index_it))

-- `yf_check_near_timer_list` for the 16 flags from `list_offset` on.
unfoldable pub check_near_timer_list : ℕ → ℕ → TmDriver → Checked TmDriver
unfolding check_indexs bit_indexs
check_near_timer_list list_offset diff_periods d =
    check_indexs (yf_mod (d.near_tm_roll_index + list_offset) near_roll_size) diff_periods
      (bit_indexs 0 (take 16 (drop list_offset d.near_tm_flags))) d

-- The walk over the parts of 16 flags, with `tmp_diff_periods`. A word or a half of one without
-- flags is passed over at once in C; here its parts have no indexes.
unfoldable pub check_parts : ℕ → ℕ → ℕ → TmDriver → Checked TmDriver
unfolding check_near_timer_list
check_parts zero offset tmp_diff d = returned d
check_parts (suc parts) offset tmp_diff d =
    if tmp_diff == 0
    then returned d
    else check_near_timer_list offset tmp_diff d >>= check_parts parts (offset + 16) (tmp_diff - 16)

-- `update_near_flags`
unfoldable pub update_near_flags : ℕ → TmDriver → Checked TmDriver
update_near_flags diff_periods d =
    if ltb diff_periods near_roll_size && not (d.near_evts_num == 0)
    then returned (record d {
      near_tm_roll_index = yf_mod (d.near_tm_roll_index + diff_periods) near_roll_size;
      near_tm_flags = drop diff_periods d.near_tm_flags ++ replicate diff_periods false;
    })
    else if leb near_roll_size diff_periods && not (d.near_evts_num == 0)
    then assert_failed
    else returned (record d { near_tm_flags = replicate near_roll_size false })

-- The near timers of `yf_poll_timer`.
unfoldable pub poll_near : ℕ → TmDriver → Checked TmDriver
unfolding check_parts update_near_flags
poll_near diff_periods d =
    if d.near_evts_num == 0
    then returned d
    else check_parts 8 0 (min diff_periods near_roll_size) d >>= update_near_flags diff_periods

-- The first index of a flag, if one is set.
unfoldable pub first_flag : List Bool → Option ℕ
first_flag [] = none
first_flag (true ∷ flags) = some 0
first_flag (false ∷ flags) = elim (first_flag flags) [ none ↦ none | some i ↦ some (i + 1) ]

-- `yf_update_nearest_tm_ms`
unfoldable pub update_nearest_tm_ms : TmDriver → Checked TmDriver
unfolding first_flag is_nil
update_nearest_tm_ms d =
    let unempty_index =
      if not (is_nil (get_or d.far_tm_lists (far_timer_inc d 1) []))
      then 1
      else if not (is_nil (get_or d.far_tm_lists (far_timer_inc d 2) []))
      then 2
      else 3 in
    if not (d.near_evts_num == 0)
    then elim (first_flag d.near_tm_flags) [
      | none ↦ assert_failed
      | some i ↦ returned (record d { nearest_timeout_ms = (i + 1) * 2 ^ prcs_ms_bit })
    ]
    else returned (record d { nearest_timeout_ms = unempty_index * 2 ^ far_prcs_ms_bit })

-- `MV_FROM_FAR_TO_NEAR`
unfoldable pub mv_from_far_to_near : TmDriver → ℕ → ℕ → Checked TmDriver
mv_from_far_to_near d t rest_ms = add_near_timer d t (align rest_ms prcs_ms)

-- The far lists that ran out as a whole: `n` of them from the index `i` on.
unfoldable pub expire_far : ℕ → ℕ → TmDriver → TmDriver
unfolding list_timeout_handler
expire_far zero i d = d
expire_far (suc n) i d =
    expire_far n (i + 1) (list_timeout_handler false d (far (far_timer_inc d i)))

-- The loop over the middle list, whose timers ran out or move to a near list.
unfoldable pub mid_list : ℕ → List ℕ → TmDriver → Checked TmDriver
unfolding timeout_handler mv_from_far_to_near
mid_list now [] d = returned d
mid_list now (t ∷ ts) d =
    let timer = d.timers t in
    let passed_tv = now - timer.time_start in
    if leb timer.time_out_ms passed_tv
    then mid_list now ts (timeout_handler false (list_del d t) t)
    else mv_from_far_to_near (list_del d t) t (timer.time_out_ms - passed_tv) >>= mid_list now ts

-- The loop over the list that comes next, whose timers move to a near list.
unfoldable pub move_list : ℕ → List ℕ → TmDriver → Checked TmDriver
unfolding mv_from_far_to_near
move_list now [] d = returned d
move_list now (t ∷ ts) d =
    let timer = d.timers t in
    let passed_tv = now - timer.time_start in
    mv_from_far_to_near (list_del d t) t (max (timer.time_out_ms - passed_tv) prcs_ms)
    >>= move_list now ts

-- The far timers of `yf_poll_timer`.
unfoldable pub poll_far : ℕ → ℕ → TmDriver → Checked TmDriver
unfolding expire_far mid_list move_list update_nearest_tm_ms
poll_far now diff_periods d =
    (if ltb 1 diff_periods
      then (let d' = expire_far (diff_periods - 2) 1 d in
          mid_list now (list_at d' (far (far_timer_inc d' (diff_periods - 1)))) d')
      else returned d)
    >>= λ d1.
        let index = far_timer_inc d1 diff_periods in
        move_list now (list_at d1 (far index)) (record d1 { far_tm_roll_index = index })
        >>= update_nearest_tm_ms

-- The part that `pos->next` leads to in the list of the driver, `none` at its head.
unfoldable pub next_in : ℕ → List ℕ → Option ℕ
next_in t [] = none
next_in t (x ∷ []) = none
next_in t (x ∷ y ∷ xs) = if t == x then some y else next_in t (y ∷ xs)

unfoldable pub first_of : List ℕ → Option ℕ
first_of [] = none
first_of (x ∷ xs) = some x

unfoldable pub next_of : Option ℕ → TmDriver → Option ℕ
unfolding next_in
next_of none d = none
next_of (some t) d = next_in t d.too_far_tm_list

-- What a walk over the too far list comes to; it may take more rounds than it is given.
pub data Walk : Type 0 where
  walked : Bool → TmDriver → Walk
  stopped : Walk
  unfinished : Walk

-- A round of the loop over the too far list: the driver and `big_lacy` behind it.
unfoldable pub too_far_round : ℕ → ℕ → Bool → TmDriver → Checked (Bool × TmDriver)
too_far_round now t big_lacy d =
    let timer = d.timers t in
    let rest_ms = timer.time_out_ms - (now - timer.time_start) in
    if leb far_ms_dist rest_ms
    then returned (big_lacy, d)
    else add_timer d t rest_ms >>= λ d'. returned (big_lacy || ltb rest_ms near_ms_dist, d')

-- The loop itself: `keep` is read before the round, as `yf_list_for_each_safe` does.
unfoldable pub too_far_walk : ℕ → ℕ → Option ℕ → Option ℕ → Bool → TmDriver → Walk
unfolding next_of too_far_round
too_far_walk zero now pos keep big_lacy d = unfinished
too_far_walk (suc fuel) now none keep big_lacy d = walked big_lacy d
too_far_walk (suc fuel) now (some t) keep big_lacy d = elim (too_far_round now t big_lacy d) [
  | returned (lacy, d') ↦ too_far_walk fuel now keep (next_of keep d') lacy d'
  | assert_failed ↦ stopped
]

-- The timers that ran out, in the order in which `yf_timeout_caller` runs their handlers, and the
-- driver with their counts taken down. The handlers themselves are the caller's code.
unfoldable pub timeout_caller : List ℕ → TmDriver → TmDriver
timeout_caller [] d = record d { timeout_list = [] }
timeout_caller (t ∷ ts) d =
    let d' =
      if (d.timers t).is_fd_evt
      then record d { fdtm_evts_num = (d.fdtm_evts_num + (2 ^ 32 - 1)) % 2 ^ 32 }
      else record d { stm_evts_num = (d.stm_evts_num + (2 ^ 32 - 1)) % 2 ^ 32 } in
    timeout_caller ts d'

-- What a poll comes to: the timers whose handlers run, and the driver.
pub data Polled : Type 0 where
  polled : List ℕ → TmDriver → Polled
  poll_stopped : Polled
  poll_unfinished : Polled

unfoldable pub call_out : Checked TmDriver → Polled
unfolding timeout_caller
call_out (returned d) = polled d.timeout_list (timeout_caller d.timeout_list d)
call_out assert_failed = poll_stopped

unfoldable pub after_walk : Walk → Polled
unfolding call_out update_nearest_tm_ms
after_walk (walked true d) = call_out (update_nearest_tm_ms d)
after_walk (walked false d) = call_out (returned d)
after_walk stopped = poll_stopped
after_walk unfinished = poll_unfinished

-- The too far timers of `yf_poll_timer`, which it checks each half round of the far wheel.
unfoldable pub poll_too_far : ℕ → ℕ → ℕ → TmDriver → Polled
unfolding after_walk too_far_walk next_of first_of call_out
poll_too_far fuel now passed_periods d =
    let first = first_of d.too_far_tm_list in
    if ltb passed_periods d.too_far_tm_period_cnt
    then poll_stopped
    else if passed_periods == d.too_far_tm_period_cnt
    then call_out (returned d)
    else after_walk (
        too_far_walk fuel now first (next_of first d) false
          (record d { too_far_tm_period_cnt = passed_periods }))

unfoldable pub then_too_far : ℕ → ℕ → ℕ → Checked TmDriver → Polled
unfolding poll_too_far
then_too_far fuel now passed_periods (returned d) = poll_too_far fuel now passed_periods d
then_too_far fuel now passed_periods assert_failed = poll_stopped

-- From `check far timer` on.
unfoldable pub from_far : ℕ → ℕ → ℕ → TmDriver → Polled
unfolding then_too_far poll_far call_out update_nearest_tm_ms
from_far fuel now passed_periods d =
    if ltb passed_periods d.far_tm_period_cnt
    then poll_stopped
    else if passed_periods == d.far_tm_period_cnt
    then call_out (update_nearest_tm_ms d)
    else then_too_far fuel now (passed_periods / 2 ^ 9) (
        poll_far now (passed_periods - d.far_tm_period_cnt)
          (record d { far_tm_period_cnt = passed_periods }))

unfoldable pub then_far : ℕ → ℕ → ℕ → Checked TmDriver → Polled
unfolding from_far
then_far fuel now passed_periods (returned d) = from_far fuel now passed_periods d
then_far fuel now passed_periods assert_failed = poll_stopped

-- `yf_poll_timer`: `start` and `now` are `yf_start_times` and `yf_now_times`. The fuel is for the
-- walk over the too far list alone.
unfoldable pub poll_timer : ℕ → (start now : ℕ) → TmDriver → Polled
unfolding then_far poll_near
poll_timer fuel start now d =
    let passed_periods = (now - start) / 2 ^ prcs_ms_bit in
    if ltb passed_periods d.tm_period_cnt
    then poll_stopped
    else if passed_periods == d.tm_period_cnt
    then polled [] d
    else then_far fuel now (passed_periods / 2 ^ 6)
        (poll_near (passed_periods - d.tm_period_cnt) (record d { tm_period_cnt = passed_periods }))
