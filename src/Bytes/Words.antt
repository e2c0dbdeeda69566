-- ===== src/Bytes/Words.antt =====
-- `to_be_bytes`, `to_le_bytes`, `from_be_bytes` and `from_le_bytes` of the unsigned integers.
use rust_raknet.Prelude.{
  ℕ, zero, suc, ◌+◌, ◌*◌, ◌/◌, ◌%◌, ◌^◌, ◌≤◌, ◌<◌, ◌≡◌, refl, List, [], ◌∷◌, ◌++◌, length, All,
  arith, length-append,
}

abbrev pub IsByte : ℕ → Type 0
IsByte b = b < 256

-- The `n` low bytes of `v`.
unfoldable pub to_be : ℕ → ℕ → List ℕ
to_be zero v = []
to_be (suc n) v = v / 256 ^ n % 256 ∷ to_be n v

unfoldable pub to_le : ℕ → ℕ → List ℕ
to_le zero v = []
to_le (suc n) v = v % 256 ∷ to_le n (v / 256)

unfoldable pub of_be : List ℕ → ℕ
of_be [] = 0
of_be (b ∷ bs) = b * 256 ^ length bs + of_be bs

unfoldable pub of_le : List ℕ → ℕ
of_le [] = 0
of_le (b ∷ bs) = b + 256 * of_le bs

pub length-to_be : (n v : ℕ) → length (to_be n v) ≡ n
unfolding to_be
length-to_be zero v = refl
length-to_be (suc n) v = omega (arith, length-to_be n v)

pub length-to_le : (n v : ℕ) → length (to_le n v) ≡ n
unfolding to_le
length-to_le zero v = refl
length-to_le (suc n) v = omega (arith, length-to_le n (v / 256))

pub length-append_bytes : (xs ys : List ℕ) → length (xs ++ ys) ≡ length xs + length ys
length-append_bytes xs ys = length-append xs ys

-- Sizes of byte strings, for `omega`.
pub ruleset sizes = (arith, length-append_bytes, length-to_be, length-to_le)

pub to_be-IsByte : (n v : ℕ) → All IsByte (to_be n v)
unfolding to_be
to_be-IsByte zero v = tt
to_be-IsByte (suc n) v = (omega arith, to_be-IsByte n v)

pub of_be-to_be_1 : (v : ℕ) → v < 2 ^ 8 → of_be (to_be 1 v) ≡ v
unfolding of_be to_be
of_be-to_be_1 v h = omega arith

pub of_be-to_be_2 : (v : ℕ) → v < 2 ^ 16 → of_be (to_be 2 v) ≡ v
unfolding of_be to_be
of_be-to_be_2 v h = omega arith

pub of_be-to_be_4 : (v : ℕ) → v < 2 ^ 32 → of_be (to_be 4 v) ≡ v
unfolding of_be to_be
of_be-to_be_4 v h = omega arith

pub of_be-to_be_8 : (v : ℕ) → v < 2 ^ 64 → of_be (to_be 8 v) ≡ v
unfolding of_be to_be
of_be-to_be_8 v h = omega arith

pub of_le-to_le_2 : (v : ℕ) → v < 2 ^ 16 → of_le (to_le 2 v) ≡ v
unfolding of_le to_le
of_le-to_le_2 v h = omega arith

pub of_le-to_le_3 : (v : ℕ) → v < 2 ^ 24 → of_le (to_le 3 v) ≡ v
unfolding of_le to_le
of_le-to_le_3 v h = omega arith

pub of_le-to_le_4 : (v : ℕ) → v < 2 ^ 32 → of_le (to_le 4 v) ≡ v
unfolding of_le to_le
of_le-to_le_4 v h = omega arith

pub of_le-to_le_8 : (v : ℕ) → v < 2 ^ 64 → of_le (to_le 8 v) ≡ v
unfolding of_le to_le
of_le-to_le_8 v h = omega arith
