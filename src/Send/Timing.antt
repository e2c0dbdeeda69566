-- ===== src/Send/Timing.antt =====
-- The retransmission timeouts of `SendQ`. An `i64` of milliseconds is a natural number: the clock
-- counts from the start of the process, and round trip times are clamped at 0.
use rust_raknet.Prelude.{ℕ, zero, suc, ◌+◌, ◌-◌, ◌*◌, ◌/◌, ◌^◌, min, max}

abbrev pub default_timeout_mills : ℕ
default_timeout_mills = 50

abbrev pub rto_ubound : ℕ
rto_ubound = 12_000

abbrev pub rto_lbound : ℕ
rto_lbound = 50

-- `i64::MAX`, and `saturating_add`
abbrev pub i64_max : ℕ
i64_max = 2 ^ 63 - 1

abbrev pub saturating_add : ℕ → ℕ → ℕ
saturating_add a b = min (a + b) i64_max

-- The new smoothed time, and `clamp` of the timeout.
unfoldable pub latency_sample : ℕ → ℕ → ℕ × ℕ
latency_sample srtt rtt =
    let srtt' = (srtt * 4 + rtt) / 5 in (srtt', min (max (srtt' * 3 / 2) rto_lbound) rto_ubound)

-- A round of the loop: `timeout as f64 * 1.5` is exact below 2 ^ 52.
unfoldable pub back_off : ℕ → ℕ
back_off timeout = min (timeout * 3 / 2) rto_ubound

-- `for _ in 0..retries`
unfoldable pub back_offs : ℕ → ℕ → ℕ
back_offs zero timeout = timeout
back_offs (suc rounds) timeout = back_offs rounds (back_off timeout)

unfoldable pub retry_timeout : ℕ → ℕ → ℕ
unfolding back_offs
retry_timeout rto retries = back_offs (min retries 32) rto
