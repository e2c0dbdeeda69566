-- ===== src/Send/Budget.antt =====
-- On the bytes that `insert_payload`, acknowledgements and `flush` account for.
use rust_raknet.Prelude.{
  ℕ, ◌-◌, ◌≤◌, ◌≡◌, refl, ap, inl, inr, Option, List, length, ltb, arith, Bool-cases,
}
use rust_raknet.Error.{ok, refuse, packet_size_exceed_mtu}
use rust_raknet.Frame.Reliability.{Reliability}
use rust_raknet.Frame.Packet.{FrameSetPacket, is_reliable}
use rust_raknet.Send.Queue.{SendQ, max_buffered_bytes, max_payload, required_bytes}
use rust_raknet.Send.Insert.{too_long, insert_as, reserve, insert_payload}
use rust_raknet.Send.Nacks.{nack}
use rust_raknet.Send.Tick.{tick, tick_all}
use rust_raknet.Send.Flush.{
  Burst, numbered, send_reliable, send_unreliable, send_front, window_full, or_false, sort_flight,
  resend_pending, flush,
}
use rust_raknet.Send.Kept.{IsShrunk, IsKept, send_loop-kept}
use rust_raknet.Send.Conserve.{numbered-flight}
use rust_raknet.Send.InsertLaws.{WhenOk, WhenOk-bind, insert_as-kept_state}
use rust_raknet.Send.Queued.{WhenOk-bind_eq}
use rust_raknet.Send.Delivery.{not_refused}

module _ {H : Type 0} where
  unfoldable pub IsBudgeted : SendQ H → Type 0
  IsBudgeted q = q.buffered_bytes ≤ max_buffered_bytes

  shrunk-IsBudgeted : (q q' : SendQ H) → IsShrunk q q' → IsBudgeted q → IsBudgeted q'
  unfolding IsBudgeted
  shrunk-IsBudgeted q q' shrunk h = omega (arith, h, shrunk.buffered_bytes)

  nack-IsBudgeted :
      (q : SendQ H) (sequence time : ℕ) → IsBudgeted q → IsBudgeted (nack q sequence time)
  unfolding nack IsBudgeted
  nack-IsBudgeted q sequence time h = h

  pub IsBudgeted-IsKept : IsKept IsBudgeted
  IsBudgeted-IsKept = record { shrunk = shrunk-IsBudgeted; nacked = nack-IsBudgeted }

  tick-IsBudgeted : (q : SendQ H) (now : ℕ) → IsBudgeted q → IsBudgeted (tick q now)
  unfolding tick tick_all IsBudgeted
  tick-IsBudgeted q now h = elim (Bool-cases (ltb now q.next_retry)) [
    | inl e ↦ rw e h
    | inr e ↦ rw e h
  ]

  sort_flight-IsBudgeted : (q : SendQ H) → IsBudgeted q → IsBudgeted (sort_flight q)
  unfolding sort_flight IsBudgeted
  sort_flight-IsBudgeted q h = elim (Bool-cases q.flight_order_dirty) [
    | inl e ↦ rw e h
    | inr e ↦ rw e h
  ]

  resend_pending-IsBudgeted :
      (q : SendQ H) (now : ℕ) → IsBudgeted q → IsBudgeted (resend_pending q now).0
  unfolding resend_pending IsBudgeted
  resend_pending-IsBudgeted q now h = elim (Bool-cases q.retries_pending) [
    | inl e ↦ rw e h
    | inr e ↦ rw e h
  ]

  send_reliable-bytes :
      (now : ℕ) (bp : Burst H × FrameSetPacket H)
      → (send_reliable now bp).queue.buffered_bytes ≡ bp.0.queue.buffered_bytes
  unfolding send_reliable
  send_reliable-bytes now bp = refl

module _ {H : Type 0} (bytes_deref : H → List ℕ) where
  send_unreliable-bytes :
      (bp : Burst H × FrameSetPacket H)
      → (send_unreliable bytes_deref bp).queue.buffered_bytes ≤ bp.0.queue.buffered_bytes
  unfolding send_unreliable
  send_unreliable-bytes bp = omega arith

  send_front-IsBudgeted :
      (now : ℕ) (b : Burst H) (packet : FrameSetPacket H) (rest : List (FrameSetPacket H))
      → IsBudgeted b.queue
      → IsBudgeted (send_front bytes_deref now b packet rest).queue
  unfolding send_front IsBudgeted
  send_front-IsBudgeted now b packet rest h =
      let popped : Burst H = record b { queue = record b.queue { packets = rest } } in
      let n = numbered bytes_deref popped packet in
      let same : n.0.queue.buffered_bytes ≡ b.queue.buffered_bytes =
        ap (λ f. f.5) (numbered-flight bytes_deref popped packet) in
      elim (Bool-cases (or_false (is_reliable packet))) [
        | inl f ↦ elim (Bool-cases (window_full b.queue)) [
          | inl g ↦ rw (f, g) h
          | inr g ↦ rw (f, g) (omega (arith, h, same, send_reliable-bytes now n))
        ]
        | inr f ↦ rw f (omega (arith, h, same, send_unreliable-bytes n))
      ]

  pub flush-IsBudgeted :
      (q : SendQ H) (now : ℕ) → IsBudgeted q → IsBudgeted (flush bytes_deref q now).1
  unfolding flush
  flush-IsBudgeted q now h =
      let resending = (resend_pending (sort_flight (tick q now)) now).0 in
      send_loop-kept bytes_deref (λ b. IsBudgeted b.queue) now
        (λ b packet rest e. send_front-IsBudgeted now b packet rest) (length resending.packets) _
        (resend_pending-IsBudgeted (sort_flight (tick q now)) now
          (sort_flight-IsBudgeted (tick q now) (tick-IsBudgeted q now h)))

module _ {H : Type 0} (bytes_deref : H → List ℕ) (bytes_slice : H → ℕ → ℕ → H) where
  insert_as-bytes :
      (r : Reliability) (q : SendQ H) (buf : List ℕ) (data' : Option H) (channel size : ℕ)
      → (insert_as bytes_deref bytes_slice r q buf data' channel size).buffered_bytes
        ≡ q.buffered_bytes
  insert_as-bytes r q buf data' channel size =
      ap (λ t. t.1) (insert_as-kept_state bytes_deref bytes_slice r q buf data' channel size)

  pub insert_payload-IsBudgeted :
      (q : SendQ H) (r : Reliability) (buf : List ℕ) (channel : ℕ) (data' : Option H)
      → IsBudgeted q
      → WhenOk IsBudgeted (insert_payload bytes_deref bytes_slice q r buf channel data')
  unfolding insert_payload reserve IsBudgeted
  insert_payload-IsBudgeted q r buf channel data' h =
      WhenOk-bind IsBudgeted (required_bytes q r (length buf)) _ λ reserved.
        WhenOk-bind_eq IsBudgeted
          (refuse (ltb (max_buffered_bytes - q.buffered_bytes) reserved) packet_size_exceed_mtu) _
          λ u e.
            let fits = not_refused _ packet_size_exceed_mtu u e in
            WhenOk-bind IsBudgeted (max_payload q) _ λ size.
              WhenOk-bind IsBudgeted
                (refuse (too_long bytes_deref bytes_slice r (length buf) size)
                  packet_size_exceed_mtu)
                (λ _. ok (
                  reserve bytes_deref bytes_slice r reserved
                    (insert_as bytes_deref bytes_slice r q buf data' channel size)))
                λ _. ground (arith, fits, h, insert_as-bytes r q buf data' channel size)
