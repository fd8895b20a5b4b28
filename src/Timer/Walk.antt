-- ===== src/Timer/Walk.antt =====
-- The walk of `yf_poll_timer` over the near flags, up to the update of the flags.
use yifei.Prelude.{
  ℕ, zero, suc, ◌+◌, ◌%◌, ◌≤◌, ◌<◌, ◌≡◌, ◌≢◌, refl, sym, ap, ap₂, ◌∙◌, subst, arith, true, some,
  List, [], ◌∷◌, ltb, ◌==◌, get_or, set, length, length-set, get_or-set_self, get_or-set_ne,
  Bool-cases, inl, inr, ltb→lt, ltb→ge, ==→eq, ==→ne, Absent, Distinct,
}
use mathlib.Core.List.{flatten}
use mathlib.Core.Option.{some-injective}
use yifei.Timer.{TmDriver, Timer, Spot, near, list_at}
use yifei.Timer.Near.{IsValid, near_list, slot_ne, length-flatten-set}
use yifei.Timer.Poll.{list_timeout_handler, expire_all}
use yifei.Timer.Expire.{AllLinked, onto, expire_all-Expired}

-- The timers of each near list are linked to it, and there once.
pub record IsWheel (d : TmDriver) : Type 0 where
  pub linked :
      (j : ℕ) → j < 128 → AllLinked d.timers ((d.near_tm_roll_index + j) % 128) (near_list d j)
  pub once : (j : ℕ) → j < 128 → Distinct (near_list d j)

-- The timers of the lists of the first `n` flags, before those of the driver's list: the last
-- timer that ran out comes first.
abbrev pub due : ℕ → TmDriver → List ℕ
due zero d = d.timeout_list
due (suc n) d = onto (near_list d n) (due n d)

-- A driver in which the lists of the first `f` flags of `d` ran out.
pub record Ran (d : TmDriver) (f : ℕ) (e : TmDriver) : Type 0 where
  pub roll : e.near_tm_roll_index ≡ d.near_tm_roll_index
  pub flags : e.near_tm_flags ≡ d.near_tm_flags
  pub lists : length e.near_tm_lists ≡ 128
  pub counted : e.near_evts_num ≡ length (flatten e.near_tm_lists)
  pub fewer : e.near_evts_num ≤ d.near_evts_num
  pub gone : (j : ℕ) → j < f → near_list e j ≡ []
  pub rest : (j : ℕ) → f ≤ j → j < 128 → near_list e j ≡ near_list d j
  pub linked :
      (j : ℕ)
      → f ≤ j
      → j < 128
      → AllLinked e.timers ((d.near_tm_roll_index + j) % 128) (near_list d j)
  pub queued : e.timeout_list ≡ due f d

slot_of : Spot → ℕ
slot_of (near i) = i
slot_of _ = 0

near-injective : (i j : ℕ) → some (near i) ≡ some (near j) → i ≡ j
unfolding slot_of
near-injective i j e = ap slot_of (some-injective (near i) (near j) e)

pub AllLinked-Absent :
    (timers : ℕ → Timer) (s s' u : ℕ) (xs : List ℕ)
    → AllLinked timers s xs
    → (timers u).linked ≡ some (near s')
    → s ≢ s'
    → Absent u xs
AllLinked-Absent timers s s' u [] a l n = tt
AllLinked-Absent timers s s' u (x ∷ xs) a l n = (
  λ e. n (near-injective s s' (sym a.0 ∙ ap (λ k. (timers k).linked) (sym e) ∙ l)),
  AllLinked-Absent timers s s' u xs a.1 l n,
)

AllLinked-other :
    (f g : ℕ → Timer) (s s' : ℕ) (xs ys : List ℕ)
    → ((u : ℕ) → Absent u xs → g u ≡ f u)
    → AllLinked f s xs
    → s ≢ s'
    → AllLinked f s' ys
    → AllLinked g s' ys
AllLinked-other f g s s' xs [] same a n l = tt
AllLinked-other f g s s' xs (y ∷ ys) same a n l = (
  ap (λ k. k.linked) (same y (AllLinked-Absent f s s' y xs a l.0 n)) ∙ l.0,
  AllLinked-other f g s s' xs ys same a n l.1,
)

pub length-get_or-flatten :
    (xss : List (List ℕ)) (i : ℕ) → i < length xss → length (get_or xss i []) ≤ length (flatten xss)
length-get_or-flatten xss i l = omega (arith, length-flatten-set xss i [] l)

-- The list of a flag, by the roll index of another driver.
by_roll :
    (e : TmDriver) (r j : ℕ)
    → e.near_tm_roll_index ≡ r
    → near_list e j ≡ get_or e.near_tm_lists ((r + j) % 128) []
by_roll e r j same = ap (λ k. get_or e.near_tm_lists ((k + j) % 128) []) same

module _ {d : TmDriver} (v : IsValid d) (w : IsWheel d) where
  pub begin-Ran : Ran d 0 d
  begin-Ran = record {
    roll = refl;
    flags = refl;
    lists = v.lists;
    counted = v.counted;
    fewer = omega arith;
    gone = λ j l. absurd (omega arith);
    rest = λ j l k. refl;
    linked = λ j l k. w.linked j k;
    queued = refl;
  }

  pub skip-Ran : (e : TmDriver) (f : ℕ) → f < 128 → near_list d f ≡ [] → Ran d f e → Ran d (suc f) e
  skip-Ran e f inside empty r = record {
    roll = r.roll;
    flags = r.flags;
    lists = r.lists;
    counted = r.counted;
    fewer = r.fewer;
    gone = λ j l. elim (Bool-cases (ltb j f)) [
      | inl q ↦ r.gone j (ltb→lt j f q)
      | inr q ↦
          let same : f ≡ j = omega (arith, ltb→ge j f q) in
          subst (λ k. near_list e k ≡ []) same (r.rest f (omega arith) inside ∙ empty)
    ];
    rest = λ j l k. r.rest j (omega arith) k;
    linked = λ j l k. r.linked j (omega arith) k;
    queued = r.queued ∙ ap (λ k. onto k (due f d)) (sym empty);
  }

  pub expire-Ran :
      (e : TmDriver) (f : ℕ)
      → f < 128
      → Ran d f e
      → Ran d (suc f) (list_timeout_handler true e (near ((d.near_tm_roll_index + f) % 128)))
  unfolding list_timeout_handler list_at
  expire-Ran e f inside r =
      let slot = (d.near_tm_roll_index + f) % 128 in
      let xs = get_or e.near_tm_lists slot [] in
      let within : slot < length e.near_tm_lists = omega (arith, r.lists) in
      let now : xs ≡ near_list d f =
        ap (λ k. get_or e.near_tm_lists ((k + f) % 128) []) (sym r.roll)
        ∙ r.rest f (omega arith) inside in
      let here : AllLinked e.timers slot xs =
        subst (AllLinked e.timers slot) (sym now) (r.linked f (omega arith) inside) in
      let x =
        expire_all-Expired e slot xs within refl here (subst Distinct (sym now) (w.once f inside))
          (omega (arith, r.counted, length-get_or-flatten e.near_tm_lists slot within))
          (omega (arith, r.fewer, v.few)) in
      let e' = expire_all true xs e in
      let roll = x.roll ∙ r.roll in
      let lists : (j : ℕ)
          → near_list e' j
            ≡ get_or (set e.near_tm_lists slot []) ((d.near_tm_roll_index + j) % 128) [] =
        λ j.
          by_roll e' d.near_tm_roll_index j roll
          ∙ ap (λ k. get_or k ((d.near_tm_roll_index + j) % 128) []) x.lists in
      let others : (j : ℕ) → j < 128 → f ≢ j → near_list e' j ≡ near_list e j = λ j k n.
        lists j
        ∙ get_or-set_ne e.near_tm_lists slot ((d.near_tm_roll_index + j) % 128) [] []
            (slot_ne d.near_tm_roll_index f j v.roll inside k n)
        ∙ sym (by_roll e d.near_tm_roll_index j r.roll) in
      record {
        roll = roll;
        flags = x.flags ∙ r.flags;
        lists = ap length x.lists ∙ length-set e.near_tm_lists slot [] ∙ r.lists;
        counted =
            x.fewer
            ∙ omega (arith, r.counted, length-flatten-set e.near_tm_lists slot [] within)
            ∙ ap (λ k. length (flatten k)) (sym x.lists);
        fewer = omega (arith, x.fewer, r.fewer);
        gone = λ j l. elim (Bool-cases (f == j)) [
          | inl q ↦
              subst (λ k. near_list e' k ≡ []) (==→eq f j q)
                (lists f ∙ get_or-set_self e.near_tm_lists slot [] [] within)
          | inr q ↦ others j (omega arith) (==→ne f j q) ∙ r.gone j (omega (arith, ==→ne f j q))
        ];
        rest = λ j l k. others j k (λ q. absurd (omega (arith, q))) ∙ r.rest j (omega arith) k;
        linked = λ j l k.
            AllLinked-other e.timers e'.timers slot ((d.near_tm_roll_index + j) % 128) xs
              (near_list d j) x.others here
              (slot_ne d.near_tm_roll_index f j v.roll inside k (λ q. absurd (omega (arith, q))))
              (r.linked j (omega arith) k);
        queued = x.queued ∙ ap₂ onto now r.queued;
      }
