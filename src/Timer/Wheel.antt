-- ===== src/Timer/Wheel.antt =====
-- Each near timer is linked to its list and stands in it once, before and after it is added or
-- deleted.
use yifei.Prelude.{
  ℕ, ◌+◌, ◌%◌, ◌^◌, ◌≤◌, ◌<◌, ◌≡◌, ◌≢◌, sym, ap, ◌∙◌, subst, arith, none, some, List, [], ◌∷◌, ◌++◌,
  ◌==◌, Bool-cases, inl, inr, ==→eq, ==→ne, Absent, Distinct, Distinct-snoc, Distinct-without,
  Absent-here,
}
use mathlib.Core.Option.{none-ne-some}
use yifei.Core.{success, returned}
use yifei.Timer.{TmDriver, Timer, near, add_timer, del_timer}
use yifei.Timer.Near.{
  IsValid, AddsNear, near_list, flag_of, flag_of-bounds, slot_ne, add_timer-AddsNear,
}
use yifei.Timer.Delete.{Deletes, del_timer-Deletes}
use yifei.Timer.Expire.{AllLinked, AllLinked-congr}
use yifei.Timer.Walk.{IsWheel, AllLinked-Absent}

-- A timer without links is in no near list.
free-Absent :
    (timers : ℕ → Timer) (slot t : ℕ) (xs : List ℕ)
    → (timers t).linked ≡ none
    → AllLinked timers slot xs
    → Absent t xs
free-Absent timers slot t [] f a = tt
free-Absent timers slot t (x ∷ xs) f a = (
  (λ e. none-ne-some (near slot) (sym f ∙ ap (λ k. (timers k).linked) e ∙ a.0)),
  free-Absent timers slot t xs f a.1,
)

AllLinked-snoc :
    (timers : ℕ → Timer) (slot t : ℕ) (xs : List ℕ)
    → (timers t).linked ≡ some (near slot)
    → AllLinked timers slot xs
    → AllLinked timers slot (xs ++ (t ∷ []))
AllLinked-snoc timers slot t [] l a = (l, tt)
AllLinked-snoc timers slot t (x ∷ xs) l a = (a.0, AllLinked-snoc timers slot t xs l a.1)

-- What holds of a driver's lists in the other driver, which differs in the timer `t` and in the
-- list of the flag `i` alone.
others-IsWheel :
    (d d' : TmDriver) (t i : ℕ)
    → IsWheel d
    → d'.near_tm_roll_index ≡ d.near_tm_roll_index
    → ((u : ℕ) → t ≢ u → d'.timers u ≡ d.timers u)
    → ((j : ℕ) → j < 128 → i ≢ j → near_list d' j ≡ near_list d j)
    → ((j : ℕ) → j < 128 → i ≢ j → Absent t (near_list d j))
    → AllLinked d'.timers ((d.near_tm_roll_index + i) % 128) (near_list d' i)
    → Distinct (near_list d' i)
    → IsWheel d'
others-IsWheel d d' t i w roll timers lists absent here once = record {
  linked = λ j l.
      subst (λ r. AllLinked d'.timers ((r + j) % 128) (near_list d' j)) (sym roll)
        (elim (Bool-cases (i == j)) [
          | inl e ↦
              subst (λ q. AllLinked d'.timers ((d.near_tm_roll_index + q) % 128) (near_list d' q))
                (==→eq i j e) here
          | inr n ↦
              subst (AllLinked d'.timers ((d.near_tm_roll_index + j) % 128))
                (sym (lists j l (==→ne i j n)))
                (AllLinked-congr d.timers d'.timers ((d.near_tm_roll_index + j) % 128) t
                  (near_list d j) timers (absent j l (==→ne i j n)) (w.linked j l))
        ]);
  once = λ j l. elim (Bool-cases (i == j)) [
    | inl e ↦ subst (λ q. Distinct (near_list d' q)) (==→eq i j e) once
    | inr n ↦ subst Distinct (sym (lists j l (==→ne i j n))) (w.once j l)
  ];
}

-- In a driver whose near lists, flags and count agree and have room for one more, and whose near
-- timers are each linked to their list and stand in it once, adding a timer that is in no list
-- for at most 254 ms succeeds: it stands at the end of the near list whose flag is the time, at
-- least 2 ms and rounded up to 2 ms, in periods of 2 ms less one, its links and its head lead
-- there, the other near lists and timers stay, and all that was assumed of the driver's lists
-- holds again.
pub add_timer-IsWheel :
    (d : TmDriver) (t tm_ms : ℕ)
    → IsValid d
    → IsWheel d
    → d.near_evts_num + 2 < 2 ^ 32
    → (d.timers t).linked ≡ none
    → tm_ms ≤ 254
    → (d' : TmDriver) × (add_timer d t tm_ms ≡ returned d')
      × AddsNear d t (flag_of tm_ms) d'
      × IsWheel d'
add_timer-IsWheel d t tm_ms v w room free h =
    let (d', e, a) = add_timer-AddsNear d t tm_ms v room free h in
    let i = flag_of tm_ms in
    let slot = (d.near_tm_roll_index + i) % 128 in
    let l : i < 128 = omega (arith, (flag_of-bounds tm_ms h).2) in
    let absent = free-Absent d.timers slot t (near_list d i) free (w.linked i l) in
    (
      d',
      e,
      a,
      others-IsWheel d d' t i w a.same_roll a.same_timers a.others
          (λ j k n.
            free-Absent d.timers ((d.near_tm_roll_index + j) % 128) t (near_list d j) free
              (w.linked j k))
          (subst (AllLinked d'.timers slot) (sym a.here) (
            AllLinked-snoc d'.timers slot t (near_list d i) a.linked (
              AllLinked-congr d.timers d'.timers slot t (near_list d i) a.same_timers absent
                (w.linked i l))))
          (subst Distinct (sym a.here) (Distinct-snoc (near_list d i) t (w.once i l) absent)),
    )

AllLinked-without :
    (timers : ℕ → Timer) (slot t : ℕ) (xs ys : List ℕ)
    → AllLinked timers slot (xs ++ t ∷ ys)
    → AllLinked timers slot (xs ++ ys) × ((timers t).linked ≡ some (near slot))
AllLinked-without timers slot t [] ys a = (a.1, a.0)
AllLinked-without timers slot t (x ∷ xs) ys a =
    let (rest, here) = AllLinked-without timers slot t xs ys a.1 in ((a.0, rest), here)

-- A number that a list without repetitions has is in neither part around it.
cut-Absent : (t : ℕ) (xs ys : List ℕ) → Distinct (xs ++ t ∷ ys) → Absent t (xs ++ ys) × Absent t xs
cut-Absent t [] ys n = (n.0, tt)
cut-Absent t (x ∷ xs) ys n =
    let (both, left) = cut-Absent t xs ys n.1 in
    let apart : t ≢ x = λ e. (Absent-here t ys x xs n.0).0 (sym e) in ((apart, both), (apart, left))

-- In a driver whose near lists, flags and count agree and whose near timers are each linked to
-- their list and stand in it once, deleting a timer of a near list to which its head leads
-- succeeds: the list is without it, it is in no list, the other near lists and timers stay, and
-- all that was assumed of the driver's lists holds again, an empty list without its flag.
pub del_timer-IsWheel :
    (d : TmDriver) (t i : ℕ) (xs ys : List ℕ)
    → IsValid d
    → IsWheel d
    → i < 128
    → near_list d i ≡ xs ++ t ∷ ys
    → (d.timers t).head ≡ some (near ((d.near_tm_roll_index + i) % 128))
    → (d' : TmDriver) × (del_timer d t ≡ (success, d')) × Deletes d t i (xs ++ ys) d' × IsWheel d'
del_timer-IsWheel d t i xs ys v w l e headed =
    let slot = (d.near_tm_roll_index + i) % 128 in
    let linked =
      AllLinked-without d.timers slot t xs ys (subst (AllLinked d.timers slot) e (w.linked i l)) in
    let once : Distinct (xs ++ t ∷ ys) = subst Distinct e (w.once i l) in
    let (both, left) = cut-Absent t xs ys once in
    let (d', q, a) = del_timer-Deletes d t i xs ys v l e left linked.1 headed in
    (
      d',
      q,
      a,
      others-IsWheel d d' t i w a.same_roll a.same_timers a.others
          (λ j k n.
            AllLinked-Absent d.timers ((d.near_tm_roll_index + j) % 128) slot t (near_list d j)
              (w.linked j k) linked.1 (λ z. slot_ne d.near_tm_roll_index i j v.roll l k n (sym z)))
          (subst (AllLinked d'.timers slot) (sym a.here)
            (AllLinked-congr d.timers d'.timers slot t (xs ++ ys) a.same_timers both linked.0))
          (subst Distinct (sym a.here) (Distinct-without t ys xs once)),
    )
