-- ===== src/Timer/Expire.antt =====
-- Running out the timers of a near list.
use yifei.Prelude.{
  ℕ, zero, suc, ◌+◌, ◌-◌, ◌%◌, ◌^◌, ◌≤◌, ◌<◌, ◌≡◌, ◌≢◌, refl, sym, ap, ◌∙◌, arith, true, none, some,
  List, [], ◌∷◌, get_or, set, length, length-set, get_or-set_self, eq→==, Absent, Distinct,
}
use yifei.Timer.{TmDriver, Timer, near, set_timer, list_at, with_list, without, list_del, del_from}
use yifei.Timer.Near.{set_timer_ne}
use yifei.Timer.Poll.{timeout_handler, expire_all}

-- The links of these timers lead into the near list `slot`.
abbrev pub AllLinked : (ℕ → Timer) → ℕ → List ℕ → Type 0
AllLinked timers slot [] = Unit {0}
AllLinked timers slot (x ∷ xs) = ((timers x).linked ≡ some (near slot)) × AllLinked timers slot xs

abbrev pub onto : List ℕ → List ℕ → List ℕ
onto [] ys = ys
onto (x ∷ xs) ys = onto xs (x ∷ ys)

-- What running out the near list `slot`, which holds `xs`, does.
pub record Expired (d : TmDriver) (slot : ℕ) (xs : List ℕ) (e : TmDriver) : Type 0 where
  pub lists : e.near_tm_lists ≡ set d.near_tm_lists slot []
  pub flags : e.near_tm_flags ≡ d.near_tm_flags
  pub roll : e.near_tm_roll_index ≡ d.near_tm_roll_index
  pub fewer : e.near_evts_num ≡ d.near_evts_num - length xs
  pub queued : e.timeout_list ≡ onto xs d.timeout_list
  pub others : (u : ℕ) → Absent u xs → e.timers u ≡ d.timers u

set-set {ℓ} : {A : Type ℓ} (xs : List A) (i : ℕ) (a b : A) → set (set xs i a) i b ≡ set xs i b
set-set [] i a b = refl
set-set (x ∷ xs) zero a b = refl
set-set (x ∷ xs) (suc i) a b = ap (λ k. x ∷ k) (set-set xs i a b)

set-get_or {ℓ} : {A : Type ℓ} (xs : List A) (i : ℕ) (d : A) → set xs i (get_or xs i d) ≡ xs
set-get_or [] i d = refl
set-get_or (x ∷ xs) zero d = refl
set-get_or (x ∷ xs) (suc i) d = ap (λ k. x ∷ k) (set-get_or xs i d)

pub AllLinked-congr :
    (f g : ℕ → Timer) (slot t : ℕ) (xs : List ℕ)
    → ((u : ℕ) → t ≢ u → g u ≡ f u)
    → Absent t xs
    → AllLinked f slot xs
    → AllLinked g slot xs
AllLinked-congr f g slot t [] same a h = tt
AllLinked-congr f g slot t (x ∷ xs) same a h =
    (ap (λ k. k.linked) (same x a.0) ∙ h.0, AllLinked-congr f g slot t xs same a.1 h.1)

-- The driver without the first timer of the list.
abbrev first_out : TmDriver → ℕ → ℕ → List ℕ → TmDriver
first_out d slot t ts =
    let dropped = set_timer d.timers t (record (d.timers t) { linked = none }) in
    record d {
      near_tm_lists = set d.near_tm_lists slot ts;
      timers = set_timer dropped t (record (dropped t) { head = none });
      near_evts_num = (d.near_evts_num + (2 ^ 32 - 1)) % 2 ^ 32;
      timeout_list = t ∷ d.timeout_list;
    }

first_out_lem :
    (d : TmDriver) (slot t : ℕ) (ts : List ℕ)
    → get_or d.near_tm_lists slot [] ≡ t ∷ ts
    → (d.timers t).linked ≡ some (near slot)
    → timeout_handler true (list_del d t) t ≡ first_out d slot t ts
unfolding timeout_handler list_del del_from list_at with_list without
first_out_lem d slot t ts e l = rw (l, e, eq→== t t refl) refl

pub expire_all-Expired :
    (d : TmDriver) (slot : ℕ) (xs : List ℕ)
    → slot < length d.near_tm_lists
    → get_or d.near_tm_lists slot [] ≡ xs
    → AllLinked d.timers slot xs
    → Distinct xs
    → length xs ≤ d.near_evts_num
    → d.near_evts_num < 2 ^ 32
    → Expired d slot xs (expire_all true xs d)
unfolding expire_all
expire_all-Expired d slot [] inside e l a n w = record {
  lists = sym (ap (set d.near_tm_lists slot) (sym e) ∙ set-get_or d.near_tm_lists slot []);
  flags = refl;
  roll = refl;
  fewer = omega arith;
  queued = refl;
  others = λ u f. refl;
}
expire_all-Expired d slot (t ∷ ts) inside e l a n w =
    let d1 = first_out d slot t ts in
    let same : (u : ℕ) → t ≢ u → d1.timers u ≡ d.timers u =
      λ u ne. set_timer_ne _ t _ u ne ∙ set_timer_ne d.timers t _ u ne in
    let count : d1.near_evts_num ≡ d.near_evts_num - 1 = omega arith in
    let r =
      expire_all-Expired d1 slot ts (omega (arith, length-set d.near_tm_lists slot ts))
        (get_or-set_self d.near_tm_lists slot ts [] inside)
        (AllLinked-congr d.timers d1.timers slot t ts same a.0 l.1) a.1 (omega (arith, count))
        (omega (arith, count)) in
    rw (first_out_lem d slot t ts e l.0) (record {
      lists = r.lists ∙ set-set d.near_tm_lists slot ts [];
      flags = r.flags;
      roll = r.roll;
      fewer = omega (arith, r.fewer, count);
      queued = r.queued;
      others = λ u f. r.others u f.1 ∙ same u (λ q. f.0 (sym q));
    })
