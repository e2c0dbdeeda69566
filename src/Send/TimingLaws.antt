-- ===== src/Send/TimingLaws.antt =====
-- On the retransmission timeouts.
use rust_raknet.Prelude.{ℕ, zero, suc, ◌≤◌, ◌≡◌, refl, min, max, arith, ◌⊎◌, inl, inr}
use rust_raknet.Send.Timing.{
  rto_lbound, rto_ubound, latency_sample, back_off, back_offs, retry_timeout,
}

-- The bounds of a timeout.
abbrev pub IsTimeout : ℕ → Type 0
IsTimeout rto = (rto_lbound ≤ rto) × (rto ≤ rto_ubound)

-- A sample gives a timeout in its bounds.
pub latency_sample_bounds :
    (srtt rtt : ℕ)
    → (rto_lbound ≤ (latency_sample srtt rtt).1) × ((latency_sample srtt rtt).1 ≤ rto_ubound)
unfolding latency_sample
latency_sample_bounds srtt rtt = omega arith

-- The smoothed round trip time lies between the old one and the sample.
pub latency_sample_between :
    (srtt rtt : ℕ)
    → (min srtt rtt ≤ (latency_sample srtt rtt).0) × ((latency_sample srtt rtt).0 ≤ max srtt rtt)
unfolding latency_sample
latency_sample_between srtt rtt = omega arith

back_off_bounds : (t : ℕ) → t ≤ rto_ubound → (t ≤ back_off t) × (back_off t ≤ rto_ubound)
unfolding back_off
back_off_bounds t h = omega arith

back_offs_bounds :
    (rounds t : ℕ) → t ≤ rto_ubound → (t ≤ back_offs rounds t) × (back_offs rounds t ≤ rto_ubound)
unfolding back_offs
back_offs_bounds zero t h = omega arith
back_offs_bounds (suc rounds) t h =
    let (up, cap) = back_off_bounds t h in
    omega (arith, up, cap, back_offs_bounds rounds (back_off t) cap)

-- For a timeout of at most 12000 ms, the timeout of a packet that was sent again any number of
-- times is at least that and at most 12000 ms.
pub retry_timeout_bounds :
    (rto retries : ℕ)
    → rto ≤ rto_ubound
    → (rto ≤ retry_timeout rto retries) × (retry_timeout rto retries ≤ rto_ubound)
unfolding retry_timeout
retry_timeout_bounds rto retries h = back_offs_bounds (min retries 32) rto h

back_offs-suc : (rounds t : ℕ) → back_offs (suc rounds) t ≡ back_off (back_offs rounds t)
unfolding back_offs
back_offs-suc zero t = refl
back_offs-suc (suc rounds) t = back_offs-suc rounds (back_off t)

below_cap :
    (n : ℕ)
    → ((min n 32 ≡ n) × (min (suc n) 32 ≡ suc n)) ⊎ ((min n 32 ≡ 32) × (min (suc n) 32 ≡ 32))
below_cap n = ground arith

-- For a timeout of at most 12000 ms, a packet that was sent again once more has a timeout that is
-- not shorter.
pub retry_timeout_mono :
    (rto retries : ℕ)
    → rto ≤ rto_ubound
    → retry_timeout rto retries ≤ retry_timeout rto (suc retries)
unfolding retry_timeout
retry_timeout_mono rto retries h = elim (below_cap retries) [
  | inl e ↦
      rw (e.0, e.1, back_offs-suc retries rto)
        (back_off_bounds (back_offs retries rto) (back_offs_bounds retries rto h).1).0
  | inr e ↦ rw (e.0, e.1) (omega arith)
]
