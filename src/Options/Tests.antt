-- ===== src/Options/Tests.antt =====
-- The theorems on options at concrete limits.
use rust_raknet.Prelude.{◌+◌, ◌≤◌, ◌≡◌, refl, inl, ◌↔◌}
use rust_raknet.Options.{
  max_bytes, SendOptions, SendOptions_default, with_in_flight_limits, with_queue_budgets,
}
use rust_raknet.Options.Limits.{
  Made, default, limited, IsLimited, Made-IsLimited, with_queue_budgets_accepts,
}

abbrev narrow : SendOptions
narrow = record SendOptions_default { in_flight_frames = 32; in_flight_bytes = 4096 }

narrow-Made : Made narrow
unfolding with_in_flight_limits
narrow-Made = limited SendOptions_default narrow 32 4096 default refl

Made-IsLimited_example : IsLimited narrow
Made-IsLimited_example = Made-IsLimited narrow narrow-Made

with_queue_budgets_accepts_example :
    (with_queue_budgets narrow 4096 2048
      ≡ inl (record narrow { reliable_queue_bytes = 4096; unreliable_queue_bytes = 2048 }))
    ↔ ((2048 ≤ 4096) × ((2048 ≤ 2048) × (4096 + 2048 ≤ max_bytes)))
with_queue_budgets_accepts_example = with_queue_budgets_accepts narrow 4096 2048
