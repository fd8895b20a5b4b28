-- ===== src/Bytes.antt =====
-- Bytes in memory as lists: `memcpy`, writing over a part, and a list turned round.
pub mod Index
pub mod Over
pub mod Turn
use yifei.Prelude.{ℕ, ◌+◌, List, ◌++◌, length, take, drop}

-- `memcpy(dst + off, src, n)`
abbrev pub memcpy : List ℕ → ℕ → List ℕ → ℕ → List ℕ
memcpy dst off src n = take off dst ++ (take n src ++ drop (off + n) dst)

-- A list turned so that index `h` comes first.
abbrev pub turn {ℓ} : {A : Type ℓ} → ℕ → List A → List A
turn h xs = drop h xs ++ take h xs

-- `xs` written over `ys` from index `p`; `ys` grows where `xs` ends behind it.
unfoldable pub over {ℓ} : {A : Type ℓ} → List A → ℕ → List A → List A
over ys p xs = take p ys ++ (xs ++ drop (p + length xs) ys)
