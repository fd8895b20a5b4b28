-- ===== src/IdSeed/Reserve.antt =====
-- Ids come from the slices that a group has reserved.
use native.Mathlib.Nat.{mod-eq_of_lt}
use yifei.Prelude.{
  ℕ, ◌+◌, ◌-◌, ◌*◌, ◌/◌, ◌%◌, ◌^◌, ◌≤◌, ◌<◌, ◌≡◌, ◌⊎◌, refl, inl, inr, arith, Bool-cases, ◌==◌,
  ==→eq, ==→ne, gt→leb, ge→ltb, ne→==, max, if◌then◌else◌,
}
use yifei.Core.{success, returned}
use yifei.BitOp.{align}
use yifei.BitOp.Align.{yf_mod-pow, align_bounds}
use yifei.IdSeed.{
  slice_size, Shared, SeedGroup, group_update, next_slice, seed_alloc, seed_group_init, first_slice,
  slice_bit,
}

-- The first id behind the slices of a group.
abbrev pub limit : SeedGroup → ℕ
limit g = (g.seed / slice_size + (g.slice_multi - g.used_slice)) * slice_size

-- A group with slices that the shared counter has passed.
pub record IsReserved (s : Shared) (g : SeedGroup) : Type 0 where
  pub few : g.slice_multi < 256
  pub unused : g.used_slice < g.slice_multi
  pub whole : s.group_used % slice_size ≡ 0
  pub passed : limit g ≤ s.group_used

-- What handing out an id does.
pub record Hands (s : Shared) (g : SeedGroup) (id : ℕ) (s' : Shared) (g' : SeedGroup) : Type 0 where
  pub this : id ≡ g.seed
  pub below : id < limit g
  pub upward : id < g'.seed
  pub next :
      ((s' ≡ s) × (limit g' ≡ limit g))
      ⊎ ((g'.seed ≡ s.group_used)
          × (s'.group_used ≡ s.group_used + slice_size * g.slice_multi)
          × (limit g' ≡ s'.group_used))
  pub reserved : IsReserved s' g'

-- For a group with reserved slices, while the shared counter stays below 2^31 after the slices of
-- another round, `yf_id_seed_alloc` returns the group's seed, which lies inside its slices, moves
-- the seed upward, and either stays inside the same slices and leaves the shared counter, or goes
-- on with new slices that start at the old value of the counter and end at the new one; the
-- slices stay reserved.
pub seed_alloc-Hands :
    (now : ℕ) (s : Shared) (g : SeedGroup)
    → IsReserved s g
    → s.group_used + slice_size * g.slice_multi < 2 ^ 31
    → (id : ℕ) × (s' : Shared) × (g' : SeedGroup) × (seed_alloc now s g ≡ returned (id, s', g'))
      × Hands s g id s' g'
unfolding seed_alloc next_slice group_update
seed_alloc-Hands now s g r room =
    let step : (g.seed + 1) % 2 ^ 32 ≡ g.seed + 1 =
      mod-eq_of_lt (omega (arith, r.passed, r.unused)) in
    let count : (g.used_slice + 1) % 2 ^ 8 ≡ g.used_slice + 1 =
      mod-eq_of_lt (omega (arith, r.few, r.unused)) in
    let moved : (s.group_used + slice_size * g.slice_multi) % 2 ^ 32
        ≡ s.group_used + slice_size * g.slice_multi =
      mod-eq_of_lt (omega arith) in
    let rest = yf_mod-pow (g.seed + 1) 14 in
    rw (step, count, rest)
      (elim (Bool-cases ((g.seed + 1) % slice_size == 0)) [
        | inl end ↦ rw end (elim (Bool-cases ((g.used_slice + 1) == g.slice_multi)) [
          | inl last ↦
              rw (last, moved, gt→leb (2 ^ 31) (s.group_used + slice_size * g.slice_multi) room)
                (
                  _,
                  _,
                  _,
                  refl,
                  record {
                    this = refl;
                    below = omega (arith, r.unused);
                    upward = omega (arith, r.unused, r.passed);
                    next = inr (refl, refl, omega (arith, r.whole));
                    reserved = record {
                      few = r.few;
                      unused = omega (arith, r.unused);
                      whole = omega (arith, r.whole);
                      passed = omega (arith, r.whole);
                    };
                  },
                )
          | inr more ↦ rw more (
            _,
            _,
            _,
            refl,
            record {
              this = refl;
              below = omega (arith, r.unused);
              upward = omega arith;
              next = inl (refl, omega (arith, r.unused, ==→eq _ _ end));
              reserved = record {
                few = r.few;
                unused = omega (arith, r.unused, ==→ne _ _ more);
                whole = r.whole;
                passed = omega (arith, r.unused, r.passed, ==→eq _ _ end);
              };
            },
          )
        ])
        | inr inside ↦ rw inside (
          _,
          _,
          _,
          refl,
          record {
            this = refl;
            below = omega (arith, r.unused);
            upward = omega arith;
            next = inl (refl, omega (arith, ==→ne _ _ inside));
            reserved = record {
              few = r.few;
              unused = r.unused;
              whole = r.whole;
              passed = omega (arith, r.passed, ==→ne _ _ inside);
            };
          },
        )
      ])

-- What setting up a group does for a client that wants `size` ids in a row.
pub record SetUp (s : Shared) (size : ℕ) (s' : Shared) (g' : SeedGroup) : Type 0 where
  pub start : g'.seed ≡ s.group_used
  pub reach : limit g' ≡ s'.group_used
  pub enough : g'.seed + max 1 size ≤ limit g'
  pub reserved : IsReserved s' g'

multi_of : ℕ → ℕ
multi_of size =
    if size == 0 then 1 else align (max size slice_size) slice_size / 2 ^ slice_bit % 2 ^ 8

multi_bounds :
    (size : ℕ)
    → size ≤ slice_size * 255
    → (0 < multi_of size) × (multi_of size < 256) × (size ≤ multi_of size * slice_size)
unfolding multi_of
multi_bounds size h = elim (Bool-cases (size == 0)) [
  | inl z ↦ rw z (omega arith, omega arith, omega (arith, ==→eq _ _ z))
  | inr n ↦
      let (whole, above, below) = align_bounds (max size slice_size) 14 in
      let narrow : align (max size slice_size) slice_size / 2 ^ 14 % 2 ^ 8
          ≡ align (max size slice_size) slice_size / 2 ^ 14 =
        mod-eq_of_lt (omega (arith, whole, below)) in
      rw (n, narrow)
        (omega (arith, above), omega (arith, whole, below), omega (arith, whole, above))
]

-- When the shared counter has been set, is a multiple of a slice and stays below 2^31 after 255
-- slices, `yf_id_seed_group_init` for at most 255 slices of ids succeeds and reserves from the
-- counter on as many ids as were asked for, and at least one, up to the counter's new value.
seed_group_init-SetUp :
    (now : ℕ) (s : Shared) (g : SeedGroup) (size : ℕ)
    → size ≤ slice_size * 255
    → s.group_used % slice_size ≡ 0
    → 0 < s.group_used
    → s.group_used + slice_size * 255 < 2 ^ 31
    → (s' : Shared) × (g' : SeedGroup) × (seed_group_init now s g size ≡ returned (success, s', g'))
      × SetUp s size s' g'
unfolding seed_group_init first_slice group_update multi_of
seed_group_init-SetUp now s g size h whole started room =
    let (p, few, long) = multi_bounds size h in
    let moved : (s.group_used + slice_size * multi_of size) % 2 ^ 32
        ≡ s.group_used + slice_size * multi_of size =
      mod-eq_of_lt (omega (arith, few)) in
    rw
      (
        ge→ltb (slice_size * 255) size h,
        ne→== s.group_used 0 (omega arith),
        moved,
        gt→leb (2 ^ 31) (s.group_used + slice_size * multi_of size) (omega (arith, few)),
      )
      (
        _,
        _,
        refl,
        record {
          start = refl;
          reach = omega (arith, whole);
          enough = omega (arith, whole, p, long);
          reserved = record {
            few = few;
            unused = p;
            whole = omega (arith, whole);
            passed = omega (arith, whole);
          };
        },
      )
