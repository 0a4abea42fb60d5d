-- ===== src/Prelude/Int.antt =====
-- `i64` values as integers over the native numbers, with the tests that the source makes on them.
-- No arithmetic that could leave the 64 bits is done on them here.
use Prim.Native.Nat.{ℕ}
use mathlib.Core.Path.{◌≡◌, ap}
use native.Mathlib.Omega.{arith}
use executorch_bencher.Prelude.Tests.{◌==◌}
use mathlib.Core.Bool.{Bool, true, false}

-- `negsuc n` is -(n + 1).
pub data ℤ : Type 0 where
  pos : ℕ → ℤ
  negsuc : ℕ → ℤ

-- `v < 0`
abbrev pub is_negative : ℤ → Bool
is_negative (pos n) = false
is_negative (negsuc n) = true

-- `v <= 0`
abbrev pub is_not_positive : ℤ → Bool
is_not_positive (pos ℕ.zero) = true
is_not_positive (pos (ℕ.suc n)) = false
is_not_positive (negsuc n) = true

-- `v != 0`, for a flag that is stored as an integer
abbrev pub is_nonzero : ℤ → Bool
is_nonzero (pos ℕ.zero) = false
is_nonzero (pos (ℕ.suc n)) = true
is_nonzero (negsuc n) = true

-- `i64::from(b)`, `b as i64`
abbrev pub flag : Bool → ℤ
flag true = pos 1
flag false = pos 0

-- `v == w`
abbrev pub int_eq : ℤ → ℤ → Bool
int_eq (pos a) (pos b) = a == b
int_eq (negsuc a) (negsuc b) = a == b
int_eq _ _ = false

pub int_eq-eq : (a b : ℤ) → int_eq a b ≡ true → a ≡ b
int_eq-eq (pos a) (pos b) h = ap pos (ground arith)
int_eq-eq (pos a) (negsuc b) h = cc
int_eq-eq (negsuc a) (pos b) h = cc
int_eq-eq (negsuc a) (negsuc b) h = ap negsuc (ground arith)
