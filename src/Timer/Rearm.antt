-- ===== src/Timer/Rearm.antt =====
-- `yf_add_timer` on a timer that is still in a near list.
use yifei.Prelude.{
  ℕ, ◌+◌, ◌%◌, ◌≤◌, ◌<◌, ◌≡◌, refl, sym, ap, ◌∙◌, arith, max, true, false, not, some, [], ◌∷◌,
  get_or, length, get_or-set_self, eq→==, Bool-cases, inl, inr, leb, le→leb,
}
use yifei.Core.{returned}
use yifei.BitOp.{align}
use yifei.BitOp.Align.{align_bounds}
use yifei.Timer.{
  TmDriver, near, add_timer, add_by_distance, add_tail, list_add_timer, leave_or_count, is_linked,
  list_del, del_from, list_at, with_list, without,
}
use yifei.Timer.Near.{IsValid, near_list, is_empty}

-- A driver that has the near lists, flags and count of `d`.
record SameNear (d d' : TmDriver) : Type 0 where
  lists : d'.near_tm_lists ≡ d.near_tm_lists
  flags : d'.near_tm_flags ≡ d.near_tm_flags
  roll : d'.near_tm_roll_index ≡ d.near_tm_roll_index

-- The driver without the timer's links.
abbrev left : TmDriver → ℕ → ℕ → TmDriver
left d t i = del_from d t (some (near ((d.near_tm_roll_index + i) % 128)))

far_away :
    (d : TmDriver) (t ms : ℕ)
    → 256 ≤ ms
    → (d' : TmDriver) × (add_by_distance d t ms ≡ returned d') × SameNear d d'
unfolding add_by_distance add_tail list_add_timer with_list
far_away d t ms h = elim (Bool-cases (leb 131072 ms)) [
  | inl too ↦ rw too (_, refl, record { lists = refl; flags = refl; roll = refl })
  | inr nearer ↦
      rw (nearer, le→leb 256 ms h) (_, refl, record { lists = refl; flags = refl; roll = refl })
]

-- In a driver whose near lists, flags and count agree, adding a timer that is alone in a near
-- list for 256 ms or more succeeds and leaves that list empty with its flag set, so that lists,
-- flags and count no longer agree.
pub add_timer-stale_flag :
    (d : TmDriver) (t i tm_ms : ℕ)
    → IsValid d
    → i < 128
    → near_list d i ≡ t ∷ []
    → (d.timers t).linked ≡ some (near ((d.near_tm_roll_index + i) % 128))
    → 256 ≤ tm_ms
    → (d' : TmDriver) × (add_timer d t tm_ms ≡ returned d')
      × (near_list d' i ≡ [])
      × (get_or d'.near_tm_flags i false ≡ true)
      × ¬ IsValid d'
unfolding add_timer leave_or_count is_linked list_del del_from list_at with_list without
add_timer-stale_flag d t i tm_ms v l e linked h =
    let slot = (d.near_tm_roll_index + i) % 128 in
    let (whole, above, below) = align_bounds (max 2 tm_ms) 1 in
    let inside : slot < length d.near_tm_lists = omega (arith, v.lists) in
    let (d', eq, same) = far_away (left d t i) t (align (max 2 tm_ms) 2) (omega (arith, above)) in
    let emptied : without t (near_list d i) ≡ [] = ap (without t) e ∙ rw (eq→== t t refl) refl in
    let lists : near_list d' i ≡ [] =
      rw (same.lists, same.roll)
        (get_or-set_self d.near_tm_lists slot (without t (near_list d i)) [] inside ∙ emptied) in
    let flag : get_or d'.near_tm_flags i false ≡ true =
      rw same.flags (v.marked i l ∙ ap (λ q. not (is_empty q)) e) in
    (
      d',
      rw linked eq,
      lists,
      flag,
      λ w.
          let z : true ≡ false = sym flag ∙ w.marked i l ∙ ap (λ q. not (is_empty q)) lists in
          absurd (cc z),
    )
