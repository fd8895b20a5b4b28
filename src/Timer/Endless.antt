-- ===== src/Timer/Endless.antt =====
-- The walk of `yf_poll_timer` over the too far list.
use yifei.Prelude.{
  ℕ, zero, suc, ◌-◌, ◌<◌, ◌≡◌, ◌≢◌, refl, sym, ap, ◌∙◌, arith, max, Bool, false, ◌||◌, some, [],
  ◌∷◌, eq→==, ne→==, ge→ltb, none,
}
use yifei.Core.{returned}
use yifei.BitOp.{align}
use yifei.Timer.{
  TmDriver, Timer, too_far, add_timer, add_by_distance, add_tail, leave_or_count, is_linked,
  list_del, del_from, list_at, with_list, without, set_timer,
}
use yifei.Timer.Near.{set_timer_self, set_timer_ne}
use yifei.Timer.Poll.{
  poll_too_far, poll_unfinished, too_far_walk, unfinished, too_far_round, next_of, next_in,
  first_of, after_walk,
}

-- Two timers that share the too far list, each with 131071 ms to go.
pub record InTurn (now : ℕ) (d : TmDriver) (a b : ℕ) : Type 0 where
  pub list : d.too_far_tm_list ≡ a ∷ b ∷ []
  pub linked_a : (d.timers a).linked ≡ some too_far
  pub linked_b : (d.timers b).linked ≡ some too_far
  pub rest_a : (d.timers a).time_out_ms - (now - (d.timers a).time_start) ≡ 131071
  pub rest_b : (d.timers b).time_out_ms - (now - (d.timers b).time_start) ≡ 131071

-- The driver after the round of the first of them, which is the second then.
abbrev turned : TmDriver → ℕ → ℕ → TmDriver
turned d a b =
    let out = set_timer d.timers a (record (d.timers a) { linked = none }) in
    record d {
      too_far_tm_list = b ∷ a ∷ [];
      timers = set_timer out a (record (out a) { linked = some too_far });
    }

align_rest : align (max 2 131071) 2 ≡ 131072
unfolding align
align_rest = refl

add_timer-turned :
    (now : ℕ) (d : TmDriver) (a b : ℕ)
    → InTurn now d a b
    → add_timer d a 131071 ≡ returned (turned d a b)
unfolding add_timer add_by_distance add_tail leave_or_count is_linked list_del del_from list_at
    with_list without
add_timer-turned now d a b t = rw (t.linked_a, align_rest, t.list, eq→== a a refl) refl

turned-InTurn :
    (now : ℕ) (d : TmDriver) (a b : ℕ) → a ≢ b → InTurn now d a b → InTurn now (turned d a b) b a
turned-InTurn now d a b n t =
    let d' = turned d a b in
    let at_a : d'.timers a ≡ record (d.timers a) { linked = some too_far } =
      set_timer_self _ a _
      ∙ ap {A = Timer} (λ k. record k { linked = some too_far }) (set_timer_self d.timers a _) in
    let at_b : d'.timers b ≡ d.timers b = set_timer_ne _ a _ b n ∙ set_timer_ne d.timers a _ b n in
    record {
      list = refl;
      linked_a = ap (λ k. k.linked) at_b ∙ t.linked_b;
      linked_b = ap (λ k. k.linked) at_a;
      rest_a = ap (λ k. k.time_out_ms - (now - k.time_start)) at_b ∙ t.rest_b;
      rest_b = ap (λ k. k.time_out_ms - (now - k.time_start)) at_a ∙ t.rest_a;
    }

too_far_round-turned :
    (now : ℕ) (d : TmDriver) (a b : ℕ) (lacy : Bool)
    → InTurn now d a b
    → too_far_round now a lacy d ≡ returned (lacy || false, turned d a b)
unfolding too_far_round
too_far_round-turned now d a b lacy t = rw (t.rest_a, add_timer-turned now d a b t) refl

too_far_walk-unfinished :
    (fuel now : ℕ) (d : TmDriver) (a b : ℕ) (lacy : Bool)
    → a ≢ b
    → InTurn now d a b
    → too_far_walk fuel now (some a) (some b) lacy d ≡ unfinished
unfolding too_far_walk next_of next_in
too_far_walk-unfinished zero now d a b lacy n t = refl
too_far_walk-unfinished (suc fuel) now d a b lacy n t =
    rw (too_far_walk, too_far_round-turned now d a b lacy t, eq→== b b refl)
      (too_far_walk-unfinished fuel now (turned d a b) b a (lacy || false) (λ e. n (sym e))
        (turned-InTurn now d a b n t))

-- When half a round of the far wheel has passed and the too far list consists of two timers that
-- both have 131071 ms to go, the walk of `yf_poll_timer` over the too far list does not end,
-- however much fuel it is given: each timer is added at the end of the list again, before the
-- walk gets to its end.
pub poll_too_far-poll_unfinished :
    (fuel now passed_periods : ℕ) (d : TmDriver) (a b : ℕ)
    → d.too_far_tm_period_cnt < passed_periods
    → a ≢ b
    → InTurn now d a b
    → poll_too_far fuel now passed_periods d ≡ poll_unfinished
unfolding poll_too_far first_of next_of next_in after_walk
poll_too_far-poll_unfinished fuel now passed_periods d a b later n t =
    let walk =
      too_far_walk-unfinished fuel now (record d { too_far_tm_period_cnt = passed_periods }) a b
        false n
        (record {
          list = t.list;
          linked_a = t.linked_a;
          linked_b = t.linked_b;
          rest_a = t.rest_a;
          rest_b = t.rest_b;
        }) in
    let first : first_of d.too_far_tm_list ≡ some a = ap first_of t.list in
    let next : next_in a d.too_far_tm_list ≡ some b =
      ap (next_in a) t.list ∙ rw (eq→== a a refl) refl in
    rw
      (
        ge→ltb passed_periods d.too_far_tm_period_cnt (omega arith),
        ne→== passed_periods d.too_far_tm_period_cnt (λ e. absurd (omega (arith, e))),
        first,
        next,
      )
      (ap after_walk walk)
