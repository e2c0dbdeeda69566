-- ===== src/Send/AwaitedAcks.antt =====
-- On `next_retry` and when packets are due, through acknowledgements.
use rust_raknet.Prelude.{
  ℕ, ◌≡◌, sym, inl, inr, List, All, subst, ◌==◌, if◌then◌else◌, arith, Bool-cases,
}
use rust_raknet.Send.Queue.{SendQ, SentPacket}
use rust_raknet.Send.Kept.{IsShrunk, IsKept}
use rust_raknet.Send.Retry.{IsAwaited, IsTimely}
use rust_raknet.Send.Awaited.{Awaited-zero, nack-IsTimely}

module _ {H : Type 0} where
  -- Packets that are awaited are so with the next round trip time, which resets `next_retry` when
  -- it changes the timeout.
  resampled-IsAwaited :
      (rto rto' n : ℕ) (items : List (SentPacket H))
      → All (IsAwaited rto n) items
      → All (IsAwaited rto' (if rto' == rto then n else 0)) items
  resampled-IsAwaited rto rto' n items a = elim (Bool-cases (rto' == rto)) [
    | inl e ↦
        let same : rto ≡ rto' = ground (arith, e) in
        rw e (subst (λ r. All (IsAwaited r n) items) same a)
    | inr e ↦ rw e (Awaited-zero rto' items)
  ]

  shrunk-IsTimely : (q q' : SendQ H) → IsShrunk q q' → IsTimely q → IsTimely q'
  unfolding IsTimely
  shrunk-IsTimely q q' shrunk h =
      subst (λ n. All (IsAwaited q'.rto n) q'.sent_packet) (sym shrunk.next_retry)
        (shrunk.part.keeps _ (resampled-IsAwaited q.rto q'.rto q.next_retry q.sent_packet h))

  pub IsTimely-IsKept : IsKept (IsTimely {H = H})
  IsTimely-IsKept = record { shrunk = shrunk-IsTimely; nacked = nack-IsTimely }
