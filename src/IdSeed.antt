-- ===== src/IdSeed.antt =====
-- src/base_struct/yf_id_seed.h and yf_id_seed.c: ids handed out from slices of a shared range.
pub mod Reserve
use yifei.Prelude.{ℕ, ◌+◌, ◌*◌, ◌/◌, ◌%◌, ◌^◌, min, max, ltb, leb, ◌==◌, if◌then◌else◌, ◌&&◌}
use yifei.Core.{Status, success, failure, Checked, returned, assert_failed}
use yifei.BitOp.{yf_mod, align}

-- `_ID_SEED_SLICE_SIZE`, of `_ID_SEED_SLICE_BIT` bits.
abbrev pub slice_bit : ℕ
slice_bit = 14

abbrev pub slice_size : ℕ
slice_size = 2 ^ 14

-- `_id_seed_group_used` and `_id_seed_start_factor`, which all groups share under a lock.
pub record Shared : Type 0 where
  pub group_used : ℕ
  pub start_factor : ℕ

-- `yf_id_seed_group_t`
pub record SeedGroup : Type 0 where
  pub seed : ℕ
  pub slice_multi : ℕ
  pub used_slice : ℕ

-- `_id_seed_group_update`; `now` is the second of `wall_utime`. The counters have 32 bits.
unfoldable pub group_update : ℕ → Shared → SeedGroup → ℕ → Checked (Shared × SeedGroup)
group_update now shared group multi =
    let moved = (shared.group_used + slice_size * multi) % 2 ^ 32 in
    let rolled = align (now / shared.start_factor) slice_size % 2 ^ 32 in
    let taken = record group { seed = shared.group_used } in
    if leb (2 ^ 31) moved
    then if ltb 12345 rolled
      then returned (
        record { group_used = rolled; start_factor = min (shared.start_factor * 2 % 2 ^ 32) 128 },
        taken,
      )
      else assert_failed
    else returned (record shared { group_used = moved }, taken)

-- The last part of `yf_id_seed_group_init`: a first slice, of which nothing is used.
unfoldable pub first_slice : Checked (Shared × SeedGroup) → Checked (Status × Shared × SeedGroup)
first_slice (returned (shared, group)) = returned (success, shared, record group { used_slice = 0 })
first_slice assert_failed = assert_failed

-- `yf_id_seed_group_init`; the test for 0 fills the shared counter at its first use.
unfoldable pub seed_group_init : ℕ → Shared → SeedGroup → ℕ → Checked (Status × Shared × SeedGroup)
unfolding first_slice
seed_group_init now shared group size =
    let start = align now slice_size % 2 ^ 32 in
    let ready = if shared.group_used == 0 then record shared { group_used = start } else shared in
    let multi =
      if size == 0 then 1 else align (max size slice_size) slice_size / 2 ^ slice_bit % 2 ^ 8 in
    if ltb (slice_size * 255) size
    then returned (failure, shared, group)
    else if (shared.group_used == 0) && leb start 12345
    then assert_failed
    else first_slice (group_update now ready (record group { slice_multi = multi }) multi)

-- The new slice of `yf_id_seed_alloc`.
unfoldable pub next_slice : ℕ → Checked (Shared × SeedGroup) → Checked (ℕ × Shared × SeedGroup)
next_slice id (returned (shared, group)) = returned (id, shared, record group { used_slice = 0 })
next_slice id assert_failed = assert_failed

-- `yf_id_seed_alloc`
unfoldable pub seed_alloc : ℕ → Shared → SeedGroup → Checked (ℕ × Shared × SeedGroup)
unfolding next_slice
seed_alloc now shared group =
    let seed = (group.seed + 1) % 2 ^ 32 in
    let used = (group.used_slice + 1) % 2 ^ 8 in
    let moved = record group { seed = seed; used_slice = used } in
    if yf_mod seed slice_size == 0
    then if used == group.slice_multi
      then next_slice group.seed (group_update now shared moved group.slice_multi)
      else returned (group.seed, shared, moved)
    else returned (group.seed, shared, record group { seed = seed })
