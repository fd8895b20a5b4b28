-- ===== src/Core.antt =====
-- src/base_struct/yf_core.h: the status codes and the magic value that every component shares.
use Prim.Native.Nat.{ℕ}

-- `YF_OK`, `YF_ERROR`, `YF_AGAIN`, `YF_BUSY`, `YF_DONE`, `YF_DECLINED` and `YF_ABORT`.
pub data Status : Type 0 where
  success failure again busy done declined abort : Status

abbrev pub magic_val : ℕ
magic_val = 0x5897A7CB

-- The result of a function with an `assert`: what it returns, or that an assertion failed.
pub data Checked {ℓ} (A : Type ℓ) : Type ℓ where
  returned : A → Checked A
  assert_failed : Checked A
