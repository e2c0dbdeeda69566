-- ===== src/Send/AwaitedFlush.antt =====
-- On `next_retry` and when packets are due, through `flush`.
use rust_raknet.Prelude.{
  ℕ, ◌≤◌, ◌≡◌, refl, sym, inl, inr, Bool, true, false, List, [], ◌∷◌, ◌++◌, length, min, All,
  All-append, subst, if◌then◌else◌, arith, Bool-cases,
}
use rust_raknet.Frame.Packet.{FrameSetPacket, is_reliable}
use rust_raknet.Send.Timing.{saturating_add, retry_timeout, back_offs}
use rust_raknet.Send.Queue.{SendQ, SentPacket}
use rust_raknet.Send.Tick.{due, tick}
use rust_raknet.Send.Flush.{
  Burst, numbered, send_reliable, send_unreliable, send_front, window_full, or_false, sort_flight,
  sent_again, resent_items, resent_retry, resend_pending, flush,
}
use rust_raknet.Send.Retry.{IsAwaited, IsTimely}
use rust_raknet.Send.Kept.{send_loop-kept}
use rust_raknet.Send.Conserve.{flight, numbered-flight}
use rust_raknet.Send.Awaited.{Awaited-earlier, tick-IsTimely, sort_flight-IsTimely}

module _ {H : Type 0} where
  resent_retry-earlier :
      (rto now n : ℕ) (items : List (SentPacket H)) → resent_retry rto now items n ≤ n
  unfolding resent_retry
  resent_retry-earlier rto now n [] = omega arith
  resent_retry-earlier rto now n (item ∷ items) =
      let again = due rto (sent_again now item) in
      elim (Bool-cases item.in_flight) [
        | inl e ↦ rw e (resent_retry-earlier rto now n items)
        | inr e ↦ rw e (omega (arith, resent_retry-earlier rto now (min n again) items))
      ]

  -- The due times of a list whose first packet is in flight or not.
  resent_step :
      (flight : Bool) (rto now n : ℕ) (item : SentPacket H) (items : List (SentPacket H))
      → item.in_flight ≡ flight
      → IsAwaited rto n item
      → IsAwaited rto
          (resent_retry rto now items (
            if flight
            then n
            else min n (saturating_add now (retry_timeout rto (sent_again now item).retries))))
          (if flight then item else sent_again now item)
  unfolding IsAwaited sent_again
  resent_step true rto now n item items e h f =
      omega (arith, h f, resent_retry-earlier rto now n items)
  resent_step false rto now n item items e h f = omega (
    arith,
    resent_retry-earlier rto now
        (min n (saturating_add now (retry_timeout rto (sent_again now item).retries))) items,
  )

  resent_items-IsAwaited :
      (rto now n m : ℕ) (items : List (SentPacket H))
      → m ≤ n
      → All (IsAwaited rto n) items
      → All (IsAwaited rto (resent_retry rto now items m)) (resent_items now items)
  unfolding resent_retry resent_items
  resent_items-IsAwaited rto now n m [] le a = tt
  resent_items-IsAwaited rto now n m (item ∷ items) le (here, a) = (
    resent_step item.in_flight rto now m item items refl
        (unfold IsAwaited in (λ e. omega (arith, le, here e))),
    resent_items-IsAwaited rto now n
        (if item.in_flight
          then m
          else min m (saturating_add now (retry_timeout rto (sent_again now item).retries)))
        items (ground (arith, le)) a,
  )

  resend_pending-IsTimely : (q : SendQ H) (now : ℕ) → IsTimely q → IsTimely (resend_pending q now).0
  unfolding resend_pending IsTimely
  resend_pending-IsTimely q now h = elim (Bool-cases q.retries_pending) [
    | inl e ↦
        rw e
          (resent_items-IsAwaited q.rto now q.next_retry q.next_retry q.sent_packet (omega arith) h)
    | inr e ↦ rw e h
  ]

  -- What `IsTimely` reads of a queue.
  pub IsTimely-flight : (q q' : SendQ H) → flight q' ≡ flight q → IsTimely q → IsTimely q'
  unfolding IsTimely
  IsTimely-flight q q' e h = subst (λ f. All (IsAwaited f.2 f.3) f.1) (sym e) h

  fresh-IsAwaited :
      (rto n now : ℕ) (item : SentPacket H)
      → item.time ≡ now
      → item.retries ≡ 0
      → IsAwaited rto (min n (saturating_add now rto)) item
  unfolding IsAwaited retry_timeout back_offs
  fresh-IsAwaited rto n now item e f g = rw (e, f) (omega arith)

  send_reliable-IsTimely :
      (now : ℕ) (bp : Burst H × FrameSetPacket H)
      → IsTimely bp.0.queue
      → IsTimely (send_reliable now bp).queue
  unfolding send_reliable IsTimely
  send_reliable-IsTimely now bp h =
      let q = bp.0.queue in
      let n = min q.next_retry (saturating_add now q.rto) in
      All-append (IsAwaited q.rto n) q.sent_packet _
        (Awaited-earlier q.rto q.next_retry n q.sent_packet (omega arith) h)
        (fresh-IsAwaited q.rto q.next_retry now _ refl refl, tt)

module _ {H : Type 0} (bytes_deref : H → List ℕ) where
  send_unreliable-IsTimely :
      (bp : Burst H × FrameSetPacket H)
      → IsTimely bp.0.queue
      → IsTimely (send_unreliable bytes_deref bp).queue
  unfolding send_unreliable IsTimely
  send_unreliable-IsTimely bp h = h

  -- The queue without its front frame, whose sent packets are the same.
  popped_IsTimely :
      (q : SendQ H) (rest : List (FrameSetPacket H))
      → IsTimely q
      → IsTimely (record q { packets = rest })
  unfolding IsTimely
  popped_IsTimely q rest h = h

  send_front-IsTimely :
      (now : ℕ) (b : Burst H) (packet : FrameSetPacket H) (rest : List (FrameSetPacket H))
      → IsTimely b.queue
      → IsTimely (send_front bytes_deref now b packet rest).queue
  unfolding send_front
  send_front-IsTimely now b packet rest h =
      let popped : Burst H = record b { queue = record b.queue { packets = rest } } in
      let n = numbered bytes_deref popped packet in
      let kept : IsTimely n.0.queue =
        IsTimely-flight popped.queue n.0.queue (numbered-flight bytes_deref popped packet)
          (popped_IsTimely b.queue rest h) in
      elim (Bool-cases (or_false (is_reliable packet))) [
        | inl f ↦ elim (Bool-cases (window_full b.queue)) [
          | inl g ↦ rw (f, g) (popped_IsTimely b.queue (rest ++ packet ∷ []) h)
          | inr g ↦ rw (f, g) (send_reliable-IsTimely now n kept)
        ]
        | inr f ↦ rw f (send_unreliable-IsTimely n kept)
      ]

  pub flush-IsTimely : (q : SendQ H) (now : ℕ) → IsTimely q → IsTimely (flush bytes_deref q now).1
  unfolding flush
  flush-IsTimely q now h =
      let resending = (resend_pending (sort_flight (tick q now)) now).0 in
      send_loop-kept bytes_deref (λ b. IsTimely b.queue) now
        (λ b packet rest e. send_front-IsTimely now b packet rest) (length resending.packets) _
        (resend_pending-IsTimely (sort_flight (tick q now)) now
          (sort_flight-IsTimely (tick q now) (tick-IsTimely q now h)))
