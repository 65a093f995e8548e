-- ===== src/Prelude/Integers.antt =====
-- Integers over the native numbers, as the C library's functions return them.
use Prim.Native.Nat.{ℕ, suc, ◌-◌, ◌%◌, ◌^◌, ◌≤◌}
use mathlib.Core.Bool.{Bool, false}
use native.Mathlib.Omega.{arith}
use nuords_proxy.Prelude.Tests.{◌==◌, ltb, if◌then◌else◌}

pub data ℤ : Type 0 where
  pos negsuc : ℕ → ℤ

-- `!n`.
abbrev pub is_null : ℤ → Bool
is_null (pos n) = n == 0
is_null (negsuc n) = false

-- `xtl::max(least, n)` and `xtl::fit(n, least, most)` of src/com/xtllib/xtl_algo.h.
abbrev pub at_least : ℕ → ℤ → ℕ
at_least least (pos n) = if ltb n least then least else n
at_least least (negsuc n) = least

abbrev pub fit_within : ℤ → ℕ → ℕ → ℕ
fit_within (pos n) least most = if ltb n least then least else if ltb most n then most else n
fit_within (negsuc n) least most = least

-- An `int` as an `unsigned int`.
abbrev pub to_unsigned : ℤ → ℕ
to_unsigned (pos n) = n % 2 ^ 32
to_unsigned (negsuc n) = 2 ^ 32 - suc (n % 2 ^ 32)

pub at_least-le : (least : ℕ) (n : ℤ) → least ≤ at_least least n
at_least-le least (pos n) = ground arith
at_least-le least (negsuc n) = omega arith

pub fit_within-le :
    (n : ℤ) (least most : ℕ)
    → least ≤ most
    → (least ≤ fit_within n least most) × (fit_within n least most ≤ most)
fit_within-le (pos n) least most h = ground arith
fit_within-le (negsuc n) least most h = ground arith
