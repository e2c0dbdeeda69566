-- ===== src/Options.antt =====
-- `SendOptions` of src/send_options.rs and `RecoveryOptions` of src/recovery_options.rs: the limits
-- of the features send-policy and recovery-policy. A `Result` of these is a sum, `Ok` on the left.
pub mod Limits
mod Tests
use rust_raknet.Prelude.{
  ℕ, ◌+◌, ◌*◌, ◌≤◌, ◌<◌, ◌≡◌, refl, Bool, true, false, ◌||◌, not, ◌&&◌, Option, none, ltb, leb,
  if◌then◌else◌, ◌⊎◌, inl, inr, arith, Bool-cases,
}

abbrev pub max_bytes : ℕ
max_bytes = 64 * 1024 * 1024

pub record SendOptions : Type 0 where
  pub in_flight_frames : ℕ
  pub in_flight_bytes : ℕ
  pub reliable_queue_bytes : ℕ
  pub unreliable_queue_bytes : ℕ
  pub flush_bytes : ℕ

abbrev pub SendOptions_default : SendOptions
SendOptions_default = record {
  in_flight_frames = 64;
  in_flight_bytes = max_bytes;
  reliable_queue_bytes = 256 * 1024;
  unreliable_queue_bytes = 64 * 1024;
  flush_bytes = 256 * 1024;
}

-- The three texts of `SendOptionsError`.
pub data SendOptionsError : Type 0 where
  flight_limits : SendOptionsError
  queue_budgets : SendOptionsError
  flush_budget : SendOptionsError

-- `(low..=high).contains(&n)`
abbrev pub between : ℕ → ℕ → ℕ → Bool
between low high n = leb low n && leb n high

unfoldable pub with_in_flight_limits : SendOptions → ℕ → ℕ → SendOptions ⊎ SendOptionsError
with_in_flight_limits o frames bytes =
    if not (between 1 4096 frames) || not (between 2048 max_bytes bytes)
    then inr flight_limits
    else inl (record o { in_flight_frames = frames; in_flight_bytes = bytes })

-- A sum past `usize` is past the limit too.
unfoldable pub with_queue_budgets : SendOptions → ℕ → ℕ → SendOptions ⊎ SendOptionsError
with_queue_budgets o reliable unreliable =
    if ltb reliable 2048 || ltb unreliable 2048 || ltb max_bytes (reliable + unreliable)
    then inr queue_budgets
    else inl (record o { reliable_queue_bytes = reliable; unreliable_queue_bytes = unreliable })

unfoldable pub with_flush_budget : SendOptions → ℕ → SendOptions ⊎ SendOptionsError
with_flush_budget o bytes =
    if not (between 2048 max_bytes bytes)
    then inr flush_budget
    else inl (record o { flush_bytes = bytes })

-- A `Duration` is a number of nanoseconds.
pub record RecoveryOptions : Type 0 where
  pub deadline_driven : Bool
  pub tail_probe_min_delay : Option ℕ
  pub reset_backoff_on_progress : Bool

abbrev pub RecoveryOptions_default : RecoveryOptions
RecoveryOptions_default = record {
  deadline_driven = false;
  tail_probe_min_delay = none;
  reset_backoff_on_progress = false;
}
