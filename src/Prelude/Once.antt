-- ===== src/Prelude/Once.antt =====
-- Numbers that are not in a list, and lists without a number twice.
use Prim.Native.Nat.{ℕ}
use mathlib.Core.Path.{sym}
use mathlib.Core.Logic.{◌≢◌}
use mathlib.Core.List.{List, [], ◌∷◌, ◌++◌}

abbrev pub Absent : ℕ → List ℕ → Type 0
Absent x [] = Unit {0}
Absent x (y ∷ ys) = (x ≢ y) × Absent x ys

abbrev pub Distinct : List ℕ → Type 0
Distinct [] = Unit {0}
Distinct (x ∷ xs) = Absent x xs × Distinct xs

pub Absent-snoc : (c : ℕ) (xs : List ℕ) (n : ℕ) → Absent c xs → c ≢ n → Absent c (xs ++ (n ∷ []))
Absent-snoc c [] n f e = (e, tt)
Absent-snoc c (x ∷ xs) n f e = (f.0, Absent-snoc c xs n f.1 e)

pub Distinct-snoc : (xs : List ℕ) (n : ℕ) → Distinct xs → Absent n xs → Distinct (xs ++ (n ∷ []))
Distinct-snoc [] n d f = (tt, tt)
Distinct-snoc (x ∷ xs) n d f =
    (Absent-snoc x xs n d.0 (λ e. f.0 (sym e)), Distinct-snoc xs n d.1 f.1)

-- A list with `x` between `xs` and `ys`.
module _ (x : ℕ) (ys : List ℕ) where
  pub Absent-left : (c : ℕ) (xs : List ℕ) → Absent c (xs ++ x ∷ ys) → Absent c xs
  Absent-left c [] f = tt
  Absent-left c (y ∷ xs) f = (f.0, Absent-left c xs f.1)

  pub Absent-here : (c : ℕ) (xs : List ℕ) → Absent c (xs ++ x ∷ ys) → (c ≢ x) × Absent c ys
  Absent-here c [] f = f
  Absent-here c (y ∷ xs) f = Absent-here c xs f.1

  pub Absent-without : (c : ℕ) (xs : List ℕ) → Absent c (xs ++ x ∷ ys) → Absent c (xs ++ ys)
  Absent-without c [] f = f.1
  Absent-without c (y ∷ xs) f = (f.0, Absent-without c xs f.1)

  pub Distinct-without : (xs : List ℕ) → Distinct (xs ++ x ∷ ys) → Distinct (xs ++ ys)
  Distinct-without [] d = d.1
  Distinct-without (y ∷ xs) d = (Absent-without y xs d.0, Distinct-without xs d.1)

  Distinct-here : (xs : List ℕ) → Distinct (xs ++ x ∷ ys) → Absent x ys × Distinct ys
  Distinct-here [] d = d
  Distinct-here (y ∷ xs) d = Distinct-here xs d.1
