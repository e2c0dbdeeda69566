-- ===== src/Prelude/Int.antt =====
-- Signed integers over the native numbers, and their two's complement patterns.
use Prim.Native.Nat.{ℕ, ◌-◌, ◌%◌, ◌^◌, ◌<◌}
use mathlib.Core.Path.{◌≡◌}
use native.Mathlib.Omega.{arith}
use rust_raknet.Prelude.Tests.{ltb, if◌then◌else◌}

-- `negsuc n` is -(n + 1).
pub data ℤ : Type 0 where
  pos : ℕ → ℤ
  negsuc : ℕ → ℤ

-- The values of an `i64`.
abbrev pub IsI64 : ℤ → Type 0
IsI64 (pos n) = n < 2 ^ 63
IsI64 (negsuc n) = n < 2 ^ 63

-- `v as u64` at the modulus 2 ^ 64, and so for the other widths; and back from 64 bits.
unfoldable pub to_unsigned : ℕ → ℤ → ℕ
to_unsigned m (pos n) = n % m
to_unsigned m (negsuc n) = m - 1 - n % m

unfoldable pub of_u64 : ℕ → ℤ
of_u64 u = if ltb u (2 ^ 63) then pos u else negsuc (2 ^ 64 - 1 - u)

pub to_u64-lt : (v : ℤ) → to_unsigned (2 ^ 64) v < 2 ^ 64
unfolding to_unsigned
to_u64-lt (pos n) = omega arith
to_u64-lt (negsuc n) = omega arith

pub of_u64-to_unsigned : (v : ℤ) → IsI64 v → of_u64 (to_unsigned (2 ^ 64) v) ≡ v
unfolding to_unsigned of_u64
of_u64-to_unsigned (pos n) h = ground arith
of_u64-to_unsigned (negsuc n) h = ground arith
