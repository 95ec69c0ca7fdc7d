-- ===== src/Base/Int.antt =====
-- Signed 64-bit integers: the two's-complement reading of a word and its inverse.
use Prim.Native.Nat.{ℕ, ◌-◌, ◌<◌, ◌^◌, ◌%◌}
use mathlib.Core.Path.{◌≡◌}
use native.Mathlib.Omega.{arith}
use styx.Base.Tests.{ltb, if◌then◌else◌}
use styx.Base.Words.{u64_mod}

-- `negsuc n` is -(n + 1).
pub data ℤ : Type 0 where
  pos : ℕ → ℤ
  negsuc : ℕ → ℤ

-- Go's `int64(w)` of a uint64.
abbrev pub to_int64 : ℕ → ℤ
to_int64 w = if ltb w (2 ^ 63) then pos w else negsuc (u64_mod - w - 1)

-- Go's `uint64(v)` of an int64.
abbrev pub of_int64 : ℤ → ℕ
of_int64 (pos n) = n % u64_mod
of_int64 (negsuc n) = u64_mod - 1 - n % u64_mod

-- The values of an int64.
abbrev pub IsInt64 : ℤ → Type 0
IsInt64 (pos n) = n < 2 ^ 63
IsInt64 (negsuc n) = n < 2 ^ 63

pub to_int64-of_int64 : (v : ℤ) → IsInt64 v → to_int64 (of_int64 v) ≡ v
to_int64-of_int64 (pos n) h = ground arith
to_int64-of_int64 (negsuc n) h = ground arith

pub of_int64-lt : (v : ℤ) → of_int64 v < u64_mod
of_int64-lt (pos n) = omega arith
of_int64-lt (negsuc n) = omega arith
