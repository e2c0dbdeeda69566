-- ===== src/Options/Limits.antt =====
-- On the limits of options and the setters that test them.
use rust_raknet.Prelude.{ℕ, ◌+◌, ◌≤◌, ◌≡◌, inl, ◌↔◌, arith}
use rust_raknet.Options.{
  max_bytes, SendOptions, SendOptions_default, with_in_flight_limits, with_queue_budgets,
  with_flush_budget,
}

-- Options that the default and the three setters make.
pub data Made : SendOptions → Type 0 where
  default : Made SendOptions_default
  limited :
      (o o' : SendOptions) (frames bytes : ℕ)
      → Made o
      → with_in_flight_limits o frames bytes ≡ inl o'
      → Made o'
  budgeted :
      (o o' : SendOptions) (reliable unreliable : ℕ)
      → Made o
      → with_queue_budgets o reliable unreliable ≡ inl o'
      → Made o'
  flushing :
      (o o' : SendOptions) (bytes : ℕ) → Made o → with_flush_budget o bytes ≡ inl o' → Made o'

pub record IsLimited (o : SendOptions) : Type 0 where
  pub some_frames : 1 ≤ o.in_flight_frames
  pub few_frames : o.in_flight_frames ≤ 4096
  pub some_bytes : 2048 ≤ o.in_flight_bytes
  pub few_bytes : o.in_flight_bytes ≤ max_bytes
  pub reliable_room : 2048 ≤ o.reliable_queue_bytes
  pub unreliable_room : 2048 ≤ o.unreliable_queue_bytes
  pub queues_fit : o.reliable_queue_bytes + o.unreliable_queue_bytes ≤ max_bytes
  pub some_flush : 2048 ≤ o.flush_bytes
  pub few_flush : o.flush_bytes ≤ max_bytes

-- Options that the default and calls of the three setters lead to, whatever their arguments, allow
-- 1 to 4096 frames and 2048 bytes to 64 MiB in flight, at least 2048 bytes for each queue and at
-- most 64 MiB for both, and 2048 bytes to 64 MiB for a flush.
pub Made-IsLimited : (o : SendOptions) → Made o → IsLimited o
unfolding with_in_flight_limits with_queue_budgets with_flush_budget
Made-IsLimited _ default = ground arith
Made-IsLimited _ (limited o o' frames bytes made e) =
    let h = Made-IsLimited o made in ground (arith, h, e)
Made-IsLimited _ (budgeted o o' reliable unreliable made e) =
    let h = Made-IsLimited o made in ground (arith, h, e)
Made-IsLimited _ (flushing o o' bytes made e) =
    let h = Made-IsLimited o made in ground (arith, h, e)

-- with_queue_budgets sets both budgets exactly where each is at least 2048 bytes and their sum is
-- at most 64 MiB.
pub with_queue_budgets_accepts :
    (o : SendOptions) (reliable unreliable : ℕ)
    → (with_queue_budgets o reliable unreliable
        ≡ inl (record o { reliable_queue_bytes = reliable; unreliable_queue_bytes = unreliable }))
      ↔ ((2048 ≤ reliable) × ((2048 ≤ unreliable) × (reliable + unreliable ≤ max_bytes)))
unfolding with_queue_budgets
with_queue_budgets_accepts o reliable unreliable = ground arith
