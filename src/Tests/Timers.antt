-- ===== src/Tests/Timers.antt =====
-- A timer driver without timers, and one with a timer of ten milliseconds.
use mathlib.Core.List.{flatten}
use yifei.Prelude.{
  ℕ, zero, suc, ◌+◌, ◌%◌, ◌≡◌, refl, sym, ap, ◌∙◌, subst, none, arith, some, false, true, not, List,
  [], ◌∷◌, ◌++◌, replicate, get_or, length, length-replicate, Distinct,
}
use yifei.Core.{success, returned}
use yifei.BitOp.{align}
use yifei.Timer.{TmDriver, Timer, near, too_far, zero_timer, add_timer, del_timer}
use yifei.Timer.Poll.{poll_too_far, poll_unfinished}
use yifei.Timer.Expire.{AllLinked}
use yifei.Timer.Walk.{IsWheel}
use yifei.Timer.Wheel.{add_timer-IsWheel, del_timer-IsWheel}
use yifei.Timer.Endless.{poll_too_far-poll_unfinished}
use yifei.Timer.Near.{IsValid, AddsNear, near_list, is_empty, flag_of}
use yifei.Timer.Delete.{Deletes}
use yifei.Timer.Rearm.{add_timer-stale_flag}

abbrev idle : TmDriver
idle = record {
  timers = λ t. zero_timer;
  stm_evts_num = 0;
  fdtm_evts_num = 0;
  far_tm_period_cnt = 0;
  too_far_tm_period_cnt = 0;
  timeout_list = [];
  free_list = [];
  too_far_tm_list = [];
  far_tm_roll_index = 0;
  far_tm_lists = replicate 1024 [];
  near_tm_lists = replicate 128 [];
  near_tm_flags = replicate 128 false;
  near_evts_num = 0;
  near_tm_roll_index = 120;
  tm_period_cnt = 0;
  nearest_timeout_ms = 384;
}

get_or-replicate {ℓ} : {A : Type ℓ} (n i : ℕ) (a : A) → get_or (replicate n a) i a ≡ a
get_or-replicate zero i a = refl
get_or-replicate (suc n) zero a = refl
get_or-replicate (suc n) (suc i) a = get_or-replicate n i a

flatten-replicate : (n : ℕ) → length (flatten (replicate n (let e : List ℕ = [] in e))) ≡ 0
unfolding flatten
flatten-replicate zero = refl
flatten-replicate (suc n) = flatten-replicate n

idle-IsValid : IsValid idle
idle-IsValid = record {
  lists = length-replicate 128 (let e : List ℕ = [] in e);
  flags = length-replicate 128 false;
  roll = omega arith;
  marked = λ i l.
      get_or-replicate 128 i false
      ∙ ap (λ q. not (is_empty q))
          (sym (get_or-replicate 128 ((120 + i) % 128) (let e : List ℕ = [] in e)));
  counted = sym (flatten-replicate 128);
  few = omega arith;
}

idle-IsWheel : IsWheel idle
idle-IsWheel = record {
  linked = λ j l.
      subst (AllLinked idle.timers ((120 + j) % 128))
        (sym (get_or-replicate 128 ((120 + j) % 128) (let e : List ℕ = [] in e))) tt;
  once = λ j l.
      subst Distinct (sym (get_or-replicate 128 ((120 + j) % 128) (let e : List ℕ = [] in e))) tt;
}

add_timer_example :
    (d' : TmDriver) × (add_timer idle 7 10 ≡ returned d')
    × AddsNear idle 7 (flag_of 10) d'
    × IsWheel d'
add_timer_example =
    add_timer-IsWheel idle 7 10 idle-IsValid idle-IsWheel (omega arith) refl (omega arith)

flag_of_ten : flag_of 10 ≡ 4
unfolding align
flag_of_ten = refl

armed_lem :
    (d' : TmDriver) × (add_timer idle 7 10 ≡ returned d')
    × AddsNear idle 7 (flag_of 10) d'
    × IsWheel d'
armed_lem = add_timer-IsWheel idle 7 10 idle-IsValid idle-IsWheel (omega arith) refl (omega arith)

armed : TmDriver
armed = armed_lem.0

armed_here : near_list armed (flag_of 10) ≡ 7 ∷ []
unfolding armed
armed_here =
    armed_lem.2.here
    ∙ ap (λ k. k ++ (7 ∷ []))
        (get_or-replicate 128 ((120 + flag_of 10) % 128) (let e : List ℕ = [] in e))

armed_linked : (armed.timers 7).linked ≡ some (near ((armed.near_tm_roll_index + flag_of 10) % 128))
unfolding armed
armed_linked =
    armed_lem.2.linked ∙ ap (λ k. some (near ((k + flag_of 10) % 128))) (sym armed_lem.2.same_roll)

armed_headed : (armed.timers 7).head ≡ some (near ((armed.near_tm_roll_index + flag_of 10) % 128))
unfolding armed
armed_headed =
    armed_lem.2.headed ∙ ap (λ k. some (near ((k + flag_of 10) % 128))) (sym armed_lem.2.same_roll)

armed-IsValid : IsValid armed
unfolding armed
armed-IsValid = armed_lem.2.valid

stale_flag_example :
    (d' : TmDriver) × (add_timer armed 7 300 ≡ returned d')
    × (near_list d' (flag_of 10) ≡ [])
    × (get_or d'.near_tm_flags (flag_of 10) false ≡ true)
    × ¬ IsValid d'
stale_flag_example =
    add_timer-stale_flag armed 7 (flag_of 10) 300 armed-IsValid (omega (arith, flag_of_ten))
      armed_here armed_linked (omega arith)

armed-IsWheel : IsWheel armed
unfolding armed
armed-IsWheel = armed_lem.3

del_timer_example :
    (d' : TmDriver) × (del_timer armed 7 ≡ (success, d'))
    × Deletes armed 7 (flag_of 10) ([] ++ []) d'
    × IsWheel d'
del_timer_example =
    del_timer-IsWheel armed 7 (flag_of 10) [] [] armed-IsValid armed-IsWheel
      (omega (arith, flag_of_ten)) armed_here armed_headed

-- Two timers that were set for 200 s, after 68.929 s.
abbrev waiting : Timer
waiting = record {
  linked = some too_far;
  head = none;
  time_start = 0;
  time_out_ms = 200000;
  is_fd_evt = false;
}

abbrev pair : TmDriver
pair = record idle { timers = λ t. waiting; stm_evts_num = 2; too_far_tm_list = 1 ∷ 2 ∷ [] }

poll_too_far_example : poll_too_far 1000000 68929 1 pair ≡ poll_unfinished
poll_too_far_example =
    poll_too_far-poll_unfinished 1000000 68929 1 pair 1 2 (omega arith)
      (λ e. absurd (omega (arith, e)))
      (record { list = refl; linked_a = refl; linked_b = refl; rest_a = refl; rest_b = refl })
