-- ===== src/Timer/Due.antt =====
-- The near timers of `yf_poll_timer`, from the walk over the flags to the turned wheel.
use yifei.Prelude.{ℕ, ◌+◌, ◌≤◌, ◌<◌, ◌≡◌, false, List, [], ◌++◌, min, drop, replicate}
use yifei.BitOp.{yf_mod}
use yifei.Timer.{TmDriver, near_roll_size}
use yifei.Timer.Near.{IsValid, near_list}
use yifei.Timer.Walk.{IsWheel, due}

-- What a poll does to the near wheel after `diff` periods.
pub record NearPolled (d : TmDriver) (diff : ℕ) (e : TmDriver) : Type 0 where
  pub valid : IsValid e
  pub wheel : IsWheel e
  pub nearer : (j : ℕ) → diff + j < 128 → near_list e j ≡ near_list d (diff + j)
  pub fresh : (j : ℕ) → j < 128 → 128 ≤ diff + j → near_list e j ≡ []
  pub queued : e.timeout_list ≡ due (min 128 diff) d

module _ {d : TmDriver} (v : IsValid d) (w : IsWheel d) where
  -- The driver with its wheel turned by `diff` periods.
  turned : ℕ → TmDriver → TmDriver
  turned diff e = record e {
    near_tm_roll_index = yf_mod (e.near_tm_roll_index + diff) near_roll_size;
    near_tm_flags = drop diff e.near_tm_flags ++ replicate diff false;
  }
