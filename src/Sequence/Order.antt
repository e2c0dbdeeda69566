-- ===== src/Sequence/Order.antt =====
-- The circular order of 24-bit serial numbers.
use rust_raknet.Prelude.{ℕ, zero, suc, ◌+◌, ◌%◌, ◌≤◌, ◌<◌, ◌≡◌, ◌⊎◌, ◌≢◌, true, false, arith}
use rust_raknet.Sequence.{mask, half, next, distance, newer}

-- `k` steps of `next`.
abbrev pub steps : ℕ → ℕ → ℕ
steps zero base = base
steps (suc k) base = next (steps k base)

steps_sum : (k base : ℕ) → base ≤ mask → steps k base ≡ (base + k) % (mask + 1)
unfolding next
steps_sum zero base h = omega arith
steps_sum (suc k) base h = omega (arith, steps_sum k base h)

-- The distance from a serial number to the one that fewer than 2^24 steps of next lead to is the
-- number of steps, past the end of the 24-bit range too.
pub distance-steps : (base k : ℕ) → base ≤ mask → k ≤ mask → distance (steps k base) base ≡ k
unfolding distance
distance-steps base k hb hk = omega (arith, steps_sum k base hb)

pub distance-bound : (value base : ℕ) → distance value base ≤ mask
unfolding distance
distance-bound value base = omega arith

pub next-bound : (value : ℕ) → next value ≤ mask
unfolding next
next-bound value = omega arith

pub distance_next :
    (value base : ℕ)
    → value ≤ mask
    → base ≤ mask
    → value ≢ base
    → distance value base ≡ suc (distance value (next base))
unfolding distance next
distance_next value base hv hb h = omega arith

-- Of two 24-bit serial numbers exactly one of four holds: they are equal, the first is newer, the
-- second is newer, or they are half the circle apart and neither is newer.
pub newer-trichotomy :
    (a b : ℕ)
    → a ≤ mask
    → b ≤ mask
    → ((a ≡ b) × (newer a b ≡ false) × (newer b a ≡ false))
      ⊎ ((distance a b < half) × (newer a b ≡ true) × (newer b a ≡ false))
      ⊎ ((half < distance a b) × (newer a b ≡ false) × (newer b a ≡ true))
      ⊎ ((distance a b ≡ half) × (newer a b ≡ false) × (newer b a ≡ false))
unfolding newer distance
newer-trichotomy a b ha hb = ground arith
