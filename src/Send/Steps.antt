-- ===== src/Send/Steps.antt =====
-- The life of a `SendQ`: what a connection does to its queue, in any order.
use rust_raknet.Prelude.{ℕ, ◌≤◌, ◌≡◌, refl, sym, Bool, Option, List, length, All, subst, arith}
use rust_raknet.Error.{ok}
use rust_raknet.Frame.Reliability.{Reliability}
use rust_raknet.Packet.Records.{Range}
use rust_raknet.Send.Queue.{SendQ, SendQ_new, enable_coalescing}
use rust_raknet.Send.Insert.{insert_payload}
use rust_raknet.Send.Acks.{ack_ranges, nack_ranges}
use rust_raknet.Send.Tick.{tick, tick_all}
use rust_raknet.Send.Flush.{flush}
use rust_raknet.Send.Retry.{IsAwaited, IsTimely, tick-tick_all}
use rust_raknet.Send.AwaitedFlush.{flush-IsTimely}
use rust_raknet.Send.AwaitedAcks.{IsTimely-IsKept}
use rust_raknet.Send.KeptAcks.{ack_ranges-kept, nack_ranges-kept}
use rust_raknet.Send.Window.{IsInWindow, IsInWindow-IsKept}
use rust_raknet.Send.WindowOps.{flush-IsInWindow}
use rust_raknet.Send.Pending.{IsAnnounced, IsPending, IsPending-IsKept}
use rust_raknet.Frame.Packet.{FrameSetPacket}
use rust_raknet.Send.Tally.{IsBlind, tally}
use rust_raknet.Send.Liveness.{tally_where, is_due, flush-due}
use rust_raknet.Send.Budget.{
  IsBudgeted, IsBudgeted-IsKept, flush-IsBudgeted, insert_payload-IsBudgeted,
}
use rust_raknet.Send.Timing.{rto_lbound, rto_ubound, retry_timeout}
use rust_raknet.Send.TimingLaws.{IsTimeout, retry_timeout_bounds}
use rust_raknet.Send.Pacing.{IsPaced, IsPaced-IsKept, flush-IsPaced}
use rust_raknet.Send.PendingFlush.{IsFlying, IsFlying-IsPending, flush-IsFlying}
use rust_raknet.Send.InsertLaws.{WhenOk-ok, sent_state, insert_payload-sent_state}

module _ {H : Type 0} (bytes_deref : H → List ℕ) (bytes_slice : H → ℕ → ℕ → H) where
  -- A call of the queue.
  pub data Step : SendQ H → SendQ H → Type 0 where
    inserted :
        (q q' : SendQ H) (r : Reliability) (buf : List ℕ) (channel : ℕ) (data' : Option H)
        → insert_payload bytes_deref bytes_slice q r buf channel data' ≡ ok q'
        → Step q q'
    acked :
        (q : SendQ H) (ranges : List Range) (now : ℕ) → Step q (ack_ranges bytes_deref q ranges now)
    nacked :
        (q : SendQ H) (ranges : List Range) (now : ℕ)
        → Step q (nack_ranges bytes_deref q ranges now)
    flushed : (q : SendQ H) (now : ℕ) → Step q (flush bytes_deref q now).1
    coalescing : (q : SendQ H) → Step q (enable_coalescing q)

  -- A queue that `SendQ::new` and calls after it lead to.
  pub data Reached : SendQ H → Type 0 where
    fresh : (mtu : ℕ) → Reached (SendQ_new mtu)
    after : (q q' : SendQ H) → Reached q → Step q q' → Reached q'

  pub record IsSound (q : SendQ H) : Type 0 where
    pub timely : IsTimely q
    pub window : IsInWindow q
    pub pending : IsPending q
    pub budgeted : IsBudgeted q
    pub paced : IsPaced q

  fresh-IsSound : (mtu : ℕ) → IsSound (SendQ_new mtu)
  fresh-IsSound mtu = record {
    timely = unfold IsTimely in tt;
    window = unfold IsInWindow in omega arith;
    pending = unfold IsPending in tt;
    budgeted = unfold IsBudgeted in omega arith;
    paced = unfold IsPaced in (omega arith, omega arith);
  }

  -- Two queues with the same packets in flight are sound alike.
  same_IsSound :
      (q q' : SendQ H) → sent_state q' ≡ sent_state q → IsBudgeted q' → IsSound q → IsSound q'
  same_IsSound q q' e budgeted s = record {
    timely =
        unfold IsTimely in
        subst (λ t. All (IsAwaited t.1 t.2) t.0) (sym e) (unfold IsTimely in s.timely);
    window =
        unfold IsInWindow in subst (λ t. length t.0 ≤ 64) (sym e) (unfold IsInWindow in s.window);
    pending =
        unfold IsPending in
        subst (λ t. All (IsAnnounced t.3) t.0) (sym e) (unfold IsPending in s.pending);
    budgeted = budgeted;
    paced = unfold IsPaced in subst (λ t. IsTimeout t.1) (sym e) (unfold IsPaced in s.paced);
  }

  Step-IsSound : (q q' : SendQ H) → Step q q' → IsSound q → IsSound q'
  Step-IsSound _ _ (inserted q q' r buf channel data' e) s =
      same_IsSound q q'
        (WhenOk-ok _ _ q' e
          (insert_payload-sent_state bytes_deref bytes_slice q r buf channel data'))
        (WhenOk-ok IsBudgeted _ q' e
          (insert_payload-IsBudgeted bytes_deref bytes_slice q r buf channel data' s.budgeted))
        s
  Step-IsSound _ _ (acked q ranges now) s = record {
    timely = ack_ranges-kept bytes_deref IsTimely IsTimely-IsKept q ranges now s.timely;
    window = ack_ranges-kept bytes_deref IsInWindow IsInWindow-IsKept q ranges now s.window;
    pending = ack_ranges-kept bytes_deref IsPending IsPending-IsKept q ranges now s.pending;
    budgeted = ack_ranges-kept bytes_deref IsBudgeted IsBudgeted-IsKept q ranges now s.budgeted;
    paced = ack_ranges-kept bytes_deref IsPaced IsPaced-IsKept q ranges now s.paced;
  }
  Step-IsSound _ _ (nacked q ranges now) s = record {
    timely = nack_ranges-kept bytes_deref IsTimely IsTimely-IsKept q ranges now s.timely;
    window = nack_ranges-kept bytes_deref IsInWindow IsInWindow-IsKept q ranges now s.window;
    pending = nack_ranges-kept bytes_deref IsPending IsPending-IsKept q ranges now s.pending;
    budgeted = nack_ranges-kept bytes_deref IsBudgeted IsBudgeted-IsKept q ranges now s.budgeted;
    paced = nack_ranges-kept bytes_deref IsPaced IsPaced-IsKept q ranges now s.paced;
  }
  Step-IsSound _ _ (flushed q now) s = record {
    timely = flush-IsTimely bytes_deref q now s.timely;
    window = flush-IsInWindow bytes_deref q now s.window;
    pending = IsFlying-IsPending _ (flush-IsFlying bytes_deref q now s.pending);
    budgeted = flush-IsBudgeted bytes_deref q now s.budgeted;
    paced = flush-IsPaced bytes_deref q now s.paced;
  }
  Step-IsSound _ _ (coalescing q) s =
      same_IsSound q (enable_coalescing q) (unfold enable_coalescing in refl)
        (unfold enable_coalescing IsBudgeted in s.budgeted) s

  -- In any queue that SendQ::new leads to by messages that were accepted, ack_ranges, nack_ranges,
  -- flush and enable_coalescing, in any order and at any times: next_retry is no later than any
  -- packet in flight is due, at most 64 packets are in flight, a packet that waits to be sent
  -- again is announced by retries_pending, the bytes that are accounted for are at most 64 MiB,
  -- and the timeout is between 50 and 12000 ms.
  pub Reached-IsSound : (q : SendQ H) → Reached q → IsSound q
  Reached-IsSound _ (fresh mtu) = fresh-IsSound mtu
  Reached-IsSound _ (after q' q reached step) = Step-IsSound q' q step (Reached-IsSound q' reached)

  -- In any queue that SendQ::new and calls after it lead to, tick, which may skip its scan until
  -- next_retry, does what the scan of all packets does, at any time and but for next_retry itself.
  pub tick-Reached :
      (q : SendQ H) (now : ℕ)
      → Reached q
      → record (tick q now) { next_retry = 0 } ≡ record (tick_all q now) { next_retry = 0 }
  tick-Reached q now reached = tick-tick_all q now (Reached-IsSound q reached).timely

  -- In any queue that SendQ::new and calls after it lead to, flush leaves every packet that it
  -- keeps in flight.
  pub flush-Reached : (q : SendQ H) (now : ℕ) → Reached q → IsFlying (flush bytes_deref q now).1
  flush-Reached q now reached = flush-IsFlying bytes_deref q now (Reached-IsSound q reached).pending

  -- In any queue that SendQ::new and calls after it lead to, flush puts out at least as many
  -- frames that pass a test as there are packets with such frames that are overdue or wait to be
  -- sent again; the test may be any that does not look at sequence numbers.
  pub flush_due-Reached :
      (p : FrameSetPacket H → Bool) (q : SendQ H) (now : ℕ)
      → IsBlind p
      → Reached q
      → tally_where (is_due q.rto now) p q.sent_packet ≤ tally p (flush bytes_deref q now).0.frames
  flush_due-Reached p q now blind reached =
      let sound = Reached-IsSound q reached in
      flush-due bytes_deref p q now blind sound.timely sound.pending

  -- In any queue that SendQ::new and calls after it lead to, the timeout of a packet that was sent
  -- again any number of times is between 50 and 12000 ms.
  pub retry_timeout-Reached :
      (q : SendQ H) (retries : ℕ)
      → Reached q
      → (rto_lbound ≤ retry_timeout q.rto retries) × (retry_timeout q.rto retries ≤ rto_ubound)
  retry_timeout-Reached q retries reached =
      let paced : IsTimeout q.rto = unfold IsPaced in (Reached-IsSound q reached).paced in
      let bounds = retry_timeout_bounds q.rto retries paced.1 in
      (omega (arith, paced.0, bounds.0), bounds.1)
