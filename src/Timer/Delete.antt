-- ===== src/Timer/Delete.antt =====
-- `yf_del_timer` on a timer of the near wheel.
use yifei.Prelude.{
  ℕ, ◌+◌, ◌-◌, ◌%◌, ◌^◌, ◌<◌, ◌≡◌, ◌≢◌, refl, sym, ap, ◌∙◌, subst, arith, Bool, true, false, not,
  none, some, List, [], ◌∷◌, ◌++◌, ◌==◌, get_or, set, length, length-set, get_or-set_self,
  get_or-set_ne, eq→==, ne→==, Bool-cases, inl, inr, length-append, ==→eq, ==→ne, Absent,
}
use yifei.Core.{Status, success}
use yifei.BitOp.Align.{yf_mod-pow}
use yifei.Timer.{
  TmDriver, near, del_timer, set_timer, list_at, with_list, without, flags_of, leave_head, uncount,
  list_del, del_from, is_linked,
}
use yifei.Timer.Near.{
  IsValid, near_list, is_empty, length-flatten-set, slot_ne, slot_flag, set_timer_self,
  set_timer_ne, counts, counts-IsValid,
}

without-append : (t : ℕ) (xs ys : List ℕ) → Absent t xs → without t (xs ++ t ∷ ys) ≡ xs ++ ys
unfolding without
without-append t [] ys f = rw (eq→== t t refl) refl
without-append t (x ∷ xs) ys f = rw (ne→== t x f.0) (ap (λ k. x ∷ k) (without-append t xs ys f.1))

-- What taking the timer out of the near list of flag `i` does.
pub record Deletes (d : TmDriver) (t i : ℕ) (rest : List ℕ) (d' : TmDriver) : Type 0 where
  pub valid : IsValid d'
  pub here : near_list d' i ≡ rest
  pub others : (j : ℕ) → j < 128 → i ≢ j → near_list d' j ≡ near_list d j
  pub free : (d'.timers t).linked ≡ none
  pub same_timers : (u : ℕ) → t ≢ u → d'.timers u ≡ d.timers u
  pub same_roll : d'.near_tm_roll_index ≡ d.near_tm_roll_index

abbrev take_out : TmDriver → ℕ → ℕ → List ℕ → TmDriver
take_out d t i rest =
    let slot = (d.near_tm_roll_index + i) % 128 in
    record d {
      near_tm_lists = set d.near_tm_lists slot rest;
      timers = set_timer d.timers t (record (d.timers t) { linked = none });
      near_tm_flags = flags_of d.near_tm_flags i rest;
      near_evts_num = (d.near_evts_num + (2 ^ 32 - 1)) % 2 ^ 32;
    }

length-flags_of :
    (flags : List Bool) (i : ℕ) (rest : List ℕ) → length (flags_of flags i rest) ≡ length flags
length-flags_of flags i [] = length-set flags i false
length-flags_of flags i (x ∷ xs) = refl

flags_of_self :
    (flags : List Bool) (i : ℕ) (rest : List ℕ)
    → i < length flags
    → get_or flags i false ≡ true
    → get_or (flags_of flags i rest) i false ≡ not (is_empty rest)
flags_of_self flags i [] l e = get_or-set_self flags i false false l
flags_of_self flags i (x ∷ xs) l e = e

flags_of-ne :
    (flags : List Bool) (i j : ℕ) (rest : List ℕ)
    → i ≢ j
    → get_or (flags_of flags i rest) j false ≡ get_or flags j false
flags_of-ne flags i j [] n = get_or-set_ne flags i j false false n
flags_of-ne flags i j (x ∷ xs) n = refl

not-empty : (xs : List ℕ) (t : ℕ) (ys : List ℕ) → is_empty (xs ++ t ∷ ys) ≡ false
not-empty [] t ys = refl
not-empty (x ∷ xs) t ys = refl

take_out-Deletes :
    (d : TmDriver) (t i : ℕ) (xs ys : List ℕ)
    → IsValid d
    → i < 128
    → near_list d i ≡ xs ++ t ∷ ys
    → Deletes d t i (xs ++ ys) (take_out d t i (xs ++ ys))
take_out-Deletes d t i xs ys v l e =
    let slot = (d.near_tm_roll_index + i) % 128 in
    let rest = xs ++ ys in
    let inside : slot < length d.near_tm_lists = omega (arith, v.lists) in
    let total = length-flatten-set d.near_tm_lists slot rest inside in
    let some_here : length (near_list d i) ≡ length rest + 1 =
      ap length e ∙ omega (arith, length-append xs (t ∷ ys), length-append xs ys) in
    let count : (d.near_evts_num + (2 ^ 32 - 1)) % 2 ^ 32 ≡ d.near_evts_num - 1 =
      omega (arith, v.counted, v.few, total, some_here) in
    let here : near_list (take_out d t i rest) i ≡ rest =
      get_or-set_self d.near_tm_lists slot rest [] inside in
    let others : (j : ℕ) → j < 128 → i ≢ j → near_list (take_out d t i rest) j ≡ near_list d j =
      λ j k n.
        get_or-set_ne d.near_tm_lists slot ((d.near_tm_roll_index + j) % 128) rest []
          (slot_ne d.near_tm_roll_index i j v.roll l k n) in
    let was : get_or d.near_tm_flags i false ≡ true =
      v.marked i l ∙ ap (λ q. not (is_empty q)) e ∙ ap not (not-empty xs t ys) in
    record {
      valid = record {
        lists = length-set d.near_tm_lists slot rest ∙ v.lists;
        flags = length-flags_of d.near_tm_flags i rest ∙ v.flags;
        roll = v.roll;
        marked = λ j k. elim (Bool-cases (i == j)) [
          | inl s ↦
              subst
                (λ q.
                  get_or (flags_of d.near_tm_flags i rest) q false
                  ≡ not (is_empty (near_list (take_out d t i rest) q)))
                (==→eq i j s)
                (flags_of_self d.near_tm_flags i rest (omega (arith, v.flags)) was
                  ∙ ap (λ q. not (is_empty q)) (sym here))
          | inr n ↦
              flags_of-ne d.near_tm_flags i j rest (==→ne i j n)
              ∙ v.marked j k
              ∙ ap (λ q. not (is_empty q)) (sym (others j k (==→ne i j n)))
        ];
        counted = omega (arith, count, v.counted, total, some_here);
        few = omega (arith, count, v.few);
      };
      here = here;
      others = others;
      free = ap (λ q. q.linked) (set_timer_self d.timers t _);
      same_timers = λ u n. set_timer_ne d.timers t _ u n;
      same_roll = refl;
    }

-- What the two last steps of `yf_del_timer` do to such a timer.
taken_out :
    (d : TmDriver) (t i : ℕ) (xs ys : List ℕ)
    → IsValid d
    → i < 128
    → near_list d i ≡ xs ++ t ∷ ys
    → Absent t xs
    → leave_head
        (del_from d t (some (near ((d.near_tm_roll_index + i) % 128))))
        (some (near ((d.near_tm_roll_index + i) % 128)))
      ≡ take_out d t i (xs ++ ys)
unfolding leave_head del_from list_at with_list
taken_out d t i xs ys v l e f =
    let slot = (d.near_tm_roll_index + i) % 128 in
    let inside : slot < length d.near_tm_lists = omega (arith, v.lists) in
    let index =
      yf_mod-pow (slot + 128 - d.near_tm_roll_index) 7
      ∙ slot_flag d.near_tm_roll_index i v.roll l in
    let rest : without t (near_list d i) ≡ xs ++ ys = ap (without t) e ∙ without-append t xs ys f in
    rw (index, rest, get_or-set_self d.near_tm_lists slot (xs ++ ys) [] inside) refl

-- In a driver whose near lists, flags and count agree, deleting a timer of a near list, where its
-- links and its head lead and before which it does not stand in that list, succeeds: the list is
-- without it, it is in no list, the other near lists stay, and lists, flags and count agree
-- again, an empty list without its flag.
pub del_timer-Deletes :
    (d : TmDriver) (t i : ℕ) (xs ys : List ℕ)
    → IsValid d
    → i < 128
    → near_list d i ≡ xs ++ t ∷ ys
    → Absent t xs
    → (d.timers t).linked ≡ some (near ((d.near_tm_roll_index + i) % 128))
    → (d.timers t).head ≡ some (near ((d.near_tm_roll_index + i) % 128))
    → (d' : TmDriver) × (del_timer d t ≡ (success, d')) × Deletes d t i (xs ++ ys) d'
unfolding del_timer is_linked uncount list_del
del_timer-Deletes d t i xs ys v l e f linked headed =
    rw (linked, headed)
      (elim (Bool-cases (d.timers t).is_fd_evt) [
        | inl fd ↦
            rw fd (rw linked (deletes ((d.fdtm_evts_num + (2 ^ 32 - 1)) % 2 ^ 32) d.stm_evts_num))
        | inr single ↦
            rw single
              (rw linked (deletes d.fdtm_evts_num ((d.stm_evts_num + (2 ^ 32 - 1)) % 2 ^ 32)))
      ])
  where
    deletes :
        (fd single : ℕ)
        → (let slot = (d.near_tm_roll_index + i) % 128 in
            (d' : TmDriver) × ((let r : Status × TmDriver = (
              success,
              leave_head (del_from (counts d fd single) t (some (near slot))) (some (near slot)),
            ) in
                r)
              ≡ (let r : Status × TmDriver = (success, d') in r))
            × Deletes d t i (xs ++ ys) d')
    deletes fd single =
        let c = counts d fd single in
        let w = counts-IsValid d fd single v in
        let r = take_out-Deletes c t i xs ys w l e in
        (
          take_out c t i (xs ++ ys),
          ap (λ k. let r : Status × TmDriver = (success, k) in r) (taken_out c t i xs ys w l e f),
          record {
            valid = r.valid;
            here = r.here;
            others = r.others;
            free = r.free;
            same_timers = r.same_timers;
            same_roll = refl;
          },
        )
