-- ===== src/Timer/Start.antt =====
-- `yf_init_tm_driver`.
use yifei.Prelude.{
  ℕ, zero, suc, ◌+◌, ◌*◌, ◌%◌, ◌^◌, ◌<◌, ◌≡◌, refl, sym, ap, ◌∙◌, subst, arith, Bool, true, false,
  not, List, [], ◌∷◌, ltb, if◌then◌else◌, get_or, replicate, length, length-replicate, Distinct,
  Bool-cases, inl, inr, ◌==◌, ==→eq, ==→ne,
}
use mathlib.Core.List.{flatten}
use yifei.Core.{Status, success, failure, Checked, returned}
use yifei.BitOp.{yf_mod}
use yifei.Timer.{TmDriver, zero_timer, far_roll_size, near_roll_size, far_timer_inc}
use yifei.Timer.Near.{IsValid, is_empty}
use yifei.Timer.Poll.{update_nearest_tm_ms, is_nil, ◌>>=◌}
use yifei.Timer.Expire.{AllLinked}
use yifei.Timer.Walk.{IsWheel}

-- The events from `i - 1` down to 0, pushed one after the other.
unfoldable pub push_down : ℕ → List ℕ → List ℕ
push_down zero xs = xs
push_down (suc i) xs = push_down i (i ∷ xs)

-- `yf_init_tm_driver`: `memory` says whether there is any for the events, which are zeroed.
unfoldable pub init_tm_driver : Bool → TmDriver → ℕ → Checked (Status × TmDriver)
unfolding push_down update_nearest_tm_ms
init_tm_driver memory d nstimers =
    let made = record d {
      timers = λ t. if ltb t nstimers then zero_timer else d.timers t;
      timeout_list = [];
      free_list = push_down nstimers [];
      far_tm_lists = replicate far_roll_size [];
      too_far_tm_list = [];
      near_tm_lists = replicate near_roll_size [];
      tm_period_cnt = 0;
    } in
    if memory
    then (update_nearest_tm_ms made >>= λ e. returned (success, e))
    else returned (failure, d)

get_or-push_down_behind :
    (n i : ℕ) (xs : List ℕ) → get_or (push_down n xs) (n + i) 0 ≡ get_or xs i 0
unfolding push_down
get_or-push_down_behind zero i xs = ap (λ k. get_or xs k 0) (omega arith)
get_or-push_down_behind (suc n) i xs =
    ap (λ k. get_or (push_down n (n ∷ xs)) k 0) (omega arith)
    ∙ get_or-push_down_behind n (suc i) (n ∷ xs)

get_or-push_down : (n i : ℕ) (xs : List ℕ) → i < n → get_or (push_down n xs) i 0 ≡ i
unfolding push_down
get_or-push_down zero i xs l = absurd (omega arith)
get_or-push_down (suc n) i xs l = elim (Bool-cases (i == n)) [
  | inl e ↦
      let q = ==→eq i n e in
      ap (λ k. get_or (push_down n (n ∷ xs)) k 0) (omega (arith, q))
      ∙ get_or-push_down_behind n 0 (n ∷ xs)
      ∙ sym q
  | inr m ↦ get_or-push_down n i (n ∷ xs) (omega (arith, ==→ne i n m))
]

length-push_down : (n : ℕ) (xs : List ℕ) → length (push_down n xs) ≡ n + length xs
unfolding push_down
length-push_down zero xs = omega arith
length-push_down (suc n) xs = omega (arith, length-push_down n (n ∷ xs))

get_or-replicate-nil : (n i : ℕ) → get_or (replicate n (let e : List ℕ = [] in e)) i [] ≡ []
get_or-replicate-nil zero i = refl
get_or-replicate-nil (suc n) zero = refl
get_or-replicate-nil (suc n) (suc i) = get_or-replicate-nil n i

length-flatten-replicate : (n : ℕ) → length (flatten (replicate n (let e : List ℕ = [] in e))) ≡ 0
unfolding flatten
length-flatten-replicate zero = refl
length-flatten-replicate (suc n) = length-flatten-replicate n

-- Without near timers and with empty far lists a poll is due after three periods of the far wheel.
nearest_idle :
    (i j : ℕ)
    → (if not (is_nil (get_or (replicate 1024 (let e : List ℕ = [] in e)) i []))
          then 1
          else if not (is_nil (get_or (replicate 1024 (let e : List ℕ = [] in e)) j []))
          then 2
          else 3)
        * 2 ^ 7
      ≡ 384
unfolding is_nil
nearest_idle i j =
    let first = get_or-replicate-nil 1024 i in
    let second = get_or-replicate-nil 1024 j in rw (first, second) refl

-- A driver without timers, whose events are all free.
pub record Ready (nstimers : ℕ) (e : TmDriver) : Type 0 where
  pub valid : IsValid e
  pub wheel : IsWheel e
  pub free : (i : ℕ) → i < nstimers → get_or e.free_list i 0 ≡ i
  pub all_free : length e.free_list ≡ nstimers
  pub nearest : e.nearest_timeout_ms ≡ 384

-- When there is memory for the events, and the driver's near flags are 128 and all unset, its
-- count of near timers is 0 and its roll index below 128, `yf_init_tm_driver` succeeds: near
-- lists, flags and count agree, the near timers are each linked to their list and stand in it
-- once, the free events are those from 0 on in their order, as many as asked for, and the next
-- poll is due after 384 ms.
init_tm_driver-Ready :
    (d : TmDriver) (nstimers : ℕ)
    → d.near_evts_num ≡ 0
    → d.near_tm_roll_index < 128
    → length d.near_tm_flags ≡ 128
    → ((i : ℕ) → i < 128 → get_or d.near_tm_flags i false ≡ false)
    → (e : TmDriver) × (init_tm_driver true d nstimers ≡ returned (success, e)) × Ready nstimers e
unfolding init_tm_driver update_nearest_tm_ms is_nil far_timer_inc
init_tm_driver-Ready d nstimers z roll flags off =
    let empty : (j : ℕ)
        → get_or (replicate 128 (let e : List ℕ = [] in e)) ((d.near_tm_roll_index + j) % 128) []
          ≡ [] =
      λ j. get_or-replicate-nil 128 ((d.near_tm_roll_index + j) % 128) in
    rw z (
      _,
      refl,
      record {
        valid = record {
          lists = length-replicate 128 (let e : List ℕ = [] in e);
          flags = flags;
          roll = roll;
          marked = λ j l. off j l ∙ sym (ap (λ xs. not (is_empty xs)) (empty j));
          counted = sym (length-flatten-replicate 128);
          few = omega arith;
        };
        wheel = record {
          linked = λ j l.
              subst
                (AllLinked (λ t. if ltb t nstimers then zero_timer else d.timers t)
                  ((d.near_tm_roll_index + j) % 128))
                (sym (empty j)) tt;
          once = λ j l. subst Distinct (sym (empty j)) tt;
        };
        free = λ i l. get_or-push_down nstimers i [] l;
        all_free = length-push_down nstimers [] ∙ omega arith;
        nearest =
            nearest_idle (yf_mod (d.far_tm_roll_index + 1) far_roll_size)
              (yf_mod (d.far_tm_roll_index + 2) far_roll_size);
      },
    )
