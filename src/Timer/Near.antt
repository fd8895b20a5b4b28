-- ===== src/Timer/Near.antt =====
-- The near wheel as a whole: the flags and the count go with the lists.
use yifei.Prelude.{
  ℕ, zero, suc, ◌+◌, ◌-◌, ◌/◌, ◌%◌, ◌^◌, ◌≤◌, ◌<◌, ◌≡◌, ◌≢◌, refl, sym, ap, ◌∙◌, subst, arith, max,
  Bool, true, false, not, none, some, List, [], ◌∷◌, ◌++◌, ltb, ◌==◌, get_or, set, length,
  length-set, get_or-set_self, get_or-set_ne, eq→==, gt→leb, le→leb, Bool-cases, inl, inr,
  length-append, ==→eq, ==→ne, ne→==,
}
use mathlib.Core.List.{flatten}
use native.Mathlib.Nat.{mod-eq_of_lt}
use yifei.Core.{returned}
use yifei.BitOp.{align}
use yifei.BitOp.Align.{yf_mod-pow, align_bounds}
use yifei.Timer.{
  TmDriver, Timer, near, add_timer, near_timer_inc, set_timer, list_at, with_list, list_add_timer,
  add_near_timer, add_by_distance, leave_or_count, is_linked,
}

-- The list whose flag is `i`.
abbrev pub near_list : TmDriver → ℕ → List ℕ
near_list d i = get_or d.near_tm_lists ((d.near_tm_roll_index + i) % 128) []

abbrev pub is_empty : List ℕ → Bool
is_empty [] = true
is_empty (x ∷ xs) = false

pub record IsValid (d : TmDriver) : Type 0 where
  pub lists : length d.near_tm_lists ≡ 128
  pub flags : length d.near_tm_flags ≡ 128
  pub roll : d.near_tm_roll_index < 128
  pub marked : (i : ℕ) → i < 128 → get_or d.near_tm_flags i false ≡ not (is_empty (near_list d i))
  pub counted : d.near_evts_num ≡ length (flatten d.near_tm_lists)
  pub few : d.near_evts_num + 1 < 2 ^ 32

-- The flag of a list, and the list of a flag.
pub slot_flag : (r i : ℕ) → r < 128 → i < 128 → ((r + i) % 128 + 128 - r) % 128 ≡ i
slot_flag r i h l = omega arith

pub slot_ne : (r i j : ℕ) → r < 128 → i < 128 → j < 128 → i ≢ j → (r + i) % 128 ≢ (r + j) % 128
slot_ne r i j h k l n e = n (omega (arith, e))

pub length-flatten-set :
    (xss : List (List ℕ)) (i : ℕ) (ys : List ℕ)
    → i < length xss
    → length (flatten (set xss i ys)) + length (get_or xss i []) ≡ length (flatten xss) + length ys
unfolding flatten
length-flatten-set [] i ys h = absurd (omega arith)
length-flatten-set (xs ∷ xss) zero ys h =
    omega (arith, length-append ys (flatten xss), length-append xs (flatten xss))
length-flatten-set (xs ∷ xss) (suc i) ys h = omega (
  arith,
  length-append xs (flatten (set xss i ys)),
  length-append xs (flatten xss),
  length-flatten-set xss i ys (omega arith),
)

-- The flag that a time below 256 ms gets.
abbrev pub flag_of : ℕ → ℕ
flag_of tm_ms = align (max 2 tm_ms) 2 / 2 - 1

pub flag_of-bounds :
    (tm_ms : ℕ)
    → tm_ms ≤ 254
    → (2 ≤ align (max 2 tm_ms) 2) × (align (max 2 tm_ms) 2 ≤ 254) × (flag_of tm_ms < 127)
flag_of-bounds tm_ms h =
    let (whole, above, below) = align_bounds (max 2 tm_ms) 1 in
    (omega (arith, above), omega (arith, whole, below), omega (arith, whole, below))

slot-near : (d : TmDriver) (i : ℕ) → near_timer_inc d i ≡ (d.near_tm_roll_index + i) % 128
unfolding near_timer_inc
slot-near d i = yf_mod-pow (d.near_tm_roll_index + i) 7

-- What adding a timer to the near list of flag `i` does.
pub record AddsNear (d : TmDriver) (t i : ℕ) (d' : TmDriver) : Type 0 where
  pub valid : IsValid d'
  pub here : near_list d' i ≡ near_list d i ++ (t ∷ [])
  pub others : (j : ℕ) → j < 128 → i ≢ j → near_list d' j ≡ near_list d j
  pub same_roll : d'.near_tm_roll_index ≡ d.near_tm_roll_index
  pub same_timers : (u : ℕ) → t ≢ u → d'.timers u ≡ d.timers u
  pub linked : (d'.timers t).linked ≡ some (near ((d.near_tm_roll_index + i) % 128))
  pub headed : (d'.timers t).head ≡ some (near ((d.near_tm_roll_index + i) % 128))

is_empty-snoc : (xs : List ℕ) (t : ℕ) → is_empty (xs ++ (t ∷ [])) ≡ false
is_empty-snoc [] t = refl
is_empty-snoc (x ∷ xs) t = refl

pub set_timer_self : (timers : ℕ → Timer) (t : ℕ) (v : Timer) → set_timer timers t v t ≡ v
unfolding set_timer
set_timer_self timers t v = rw (eq→== t t refl) refl

pub set_timer_ne :
    (timers : ℕ → Timer) (t : ℕ) (v : Timer) (u : ℕ) → t ≢ u → set_timer timers t v u ≡ timers u
unfolding set_timer
set_timer_ne timers t v u n = rw (ne→== t u n) refl

-- The driver with the timer at the end of one near list.
abbrev put : TmDriver → ℕ → ℕ → TmDriver
put d t i =
    let slot = (d.near_tm_roll_index + i) % 128 in
    record d {
      near_tm_lists = set d.near_tm_lists slot (get_or d.near_tm_lists slot [] ++ (t ∷ []));
      timers =
          set_timer d.timers t
            (record (d.timers t) { linked = some (near slot); head = some (near slot) });
      near_tm_flags = set d.near_tm_flags i true;
      near_evts_num = (d.near_evts_num + 1) % 2 ^ 32;
    }

put-AddsNear :
    (d : TmDriver) (t i ms : ℕ)
    → IsValid d
    → d.near_evts_num + 2 < 2 ^ 32
    → i < 128
    → AddsNear d t i (record (put d t i) { nearest_timeout_ms = ms })
put-AddsNear d t i ms v room l =
    let slot = (d.near_tm_roll_index + i) % 128 in
    let xs = get_or d.near_tm_lists slot [] in
    let inside : slot < length d.near_tm_lists = omega (arith, v.lists) in
    let count : (d.near_evts_num + 1) % 2 ^ 32 ≡ d.near_evts_num + 1 = mod-eq_of_lt (omega arith) in
    let here : near_list (put d t i) i ≡ xs ++ (t ∷ []) =
      get_or-set_self d.near_tm_lists slot (xs ++ (t ∷ [])) [] inside in
    let others : (j : ℕ) → j < 128 → i ≢ j → near_list (put d t i) j ≡ near_list d j = λ j k n.
      get_or-set_ne d.near_tm_lists slot ((d.near_tm_roll_index + j) % 128) (xs ++ (t ∷ [])) []
        (slot_ne d.near_tm_roll_index i j v.roll l k n) in
    record {
      valid = record {
        lists = length-set d.near_tm_lists slot (xs ++ (t ∷ [])) ∙ v.lists;
        flags = length-set d.near_tm_flags i true ∙ v.flags;
        roll = v.roll;
        marked = λ j k. elim (Bool-cases (i == j)) [
          | inl e ↦
              subst
                (λ q.
                  get_or (set d.near_tm_flags i true) q false
                  ≡ not (is_empty (near_list (put d t i) q)))
                (==→eq i j e)
                (get_or-set_self d.near_tm_flags i true false (omega (arith, v.flags))
                  ∙ sym (ap (λ q. not (is_empty q)) here ∙ ap not (is_empty-snoc xs t)))
          | inr n ↦
              get_or-set_ne d.near_tm_flags i j true false (==→ne i j n)
              ∙ v.marked j k
              ∙ ap (λ q. not (is_empty q)) (sym (others j k (==→ne i j n)))
        ];
        counted = omega (
          arith,
          count,
          v.counted,
          length-append xs (t ∷ []),
          length-flatten-set d.near_tm_lists slot (xs ++ (t ∷ [])) inside,
        );
        few = omega (arith, count);
      };
      here = here;
      others = others;
      same_roll = refl;
      same_timers = λ u n. set_timer_ne d.timers t _ u n;
      linked = ap (λ q. q.linked) (set_timer_self d.timers t _);
      headed = ap (λ q. q.head) (set_timer_self d.timers t _);
    }

add_near_timer-AddsNear :
    (d : TmDriver) (t ms : ℕ)
    → IsValid d
    → d.near_evts_num + 2 < 2 ^ 32
    → 2 ≤ ms
    → ms ≤ 256
    → (d' : TmDriver) × (add_near_timer d t ms ≡ returned d') × AddsNear d t (ms / 2 - 1) d'
unfolding add_near_timer list_add_timer list_at with_list
add_near_timer-AddsNear d t ms v room low high =
    rw (slot-near d (ms / 2 - 1), le→leb 2 ms low, le→leb ms 256 high)
      (elim (Bool-cases (ltb ms d.nearest_timeout_ms)) [
        | inl first ↦ rw first (_, refl, put-AddsNear d t (ms / 2 - 1) ms v room (omega arith))
        | inr later ↦
            rw later
              (_, refl, put-AddsNear d t (ms / 2 - 1) d.nearest_timeout_ms v room (omega arith))
      ])

-- The counts of the two kinds of timers play no part in the near wheel.
abbrev pub counts : TmDriver → ℕ → ℕ → TmDriver
counts d fd single = record d { fdtm_evts_num = fd; stm_evts_num = single }

pub counts-IsValid : (d : TmDriver) (fd single : ℕ) → IsValid d → IsValid (counts d fd single)
counts-IsValid d fd single v = record {
  lists = v.lists;
  flags = v.flags;
  roll = v.roll;
  marked = v.marked;
  counted = v.counted;
  few = v.few;
}

counts-AddsNear :
    (d : TmDriver) (fd single t i : ℕ) (d' : TmDriver)
    → AddsNear (counts d fd single) t i d'
    → AddsNear d t i d'
counts-AddsNear d fd single t i d' a = record {
  valid = a.valid;
  here = a.here;
  others = a.others;
  same_roll = a.same_roll;
  same_timers = a.same_timers;
  linked = a.linked;
  headed = a.headed;
}

-- In a driver whose near lists, flags and count agree and have room for one more, adding a timer
-- that is in no list for at most 254 ms succeeds: it stands at the end of the near list whose
-- flag is the time, at least 2 ms and rounded up to 2 ms, in periods of 2 ms less one, its links
-- and its head lead there, the other near lists stay, and lists, flags and count agree again.
pub add_timer-AddsNear :
    (d : TmDriver) (t tm_ms : ℕ)
    → IsValid d
    → d.near_evts_num + 2 < 2 ^ 32
    → (d.timers t).linked ≡ none
    → tm_ms ≤ 254
    → (d' : TmDriver) × (add_timer d t tm_ms ≡ returned d') × AddsNear d t (flag_of tm_ms) d'
unfolding add_timer leave_or_count is_linked add_by_distance
add_timer-AddsNear d t tm_ms v room free h =
    let (low, high, l) = flag_of-bounds tm_ms h in
    let ms = align (max 2 tm_ms) 2 in
    rw (free, gt→leb 131072 ms (omega (arith, high)), gt→leb 256 ms (omega (arith, high)))
      (elim (Bool-cases (d.timers t).is_fd_evt) [
        | inl fd ↦ rw fd (adds ((d.fdtm_evts_num + 1) % 2 ^ 32) d.stm_evts_num)
        | inr single ↦ rw single (adds d.fdtm_evts_num ((d.stm_evts_num + 1) % 2 ^ 32))
      ])
  where
    adds :
        (fd single : ℕ)
        → (d' : TmDriver) × (add_near_timer (counts d fd single) t (align (max 2 tm_ms) 2)
            ≡ returned d')
          × AddsNear d t (flag_of tm_ms) d'
    adds fd single =
        let (low, high, l) = flag_of-bounds tm_ms h in
        let (d', e, a) =
          add_near_timer-AddsNear (counts d fd single) t (align (max 2 tm_ms) 2)
            (counts-IsValid d fd single v) room low (omega (arith, high)) in
        (d', e, counts-AddsNear d fd single t (flag_of tm_ms) d' a)
