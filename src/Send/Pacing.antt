-- ===== src/Send/Pacing.antt =====
-- On the timeout of a queue through acknowledgements and `flush`.
use rust_raknet.Prelude.{ℕ, ◌≡◌, refl, ap, ◌∙◌, inl, inr, List, length, ltb, subst, sym, Bool-cases}
use rust_raknet.Frame.Packet.{FrameSetPacket, is_reliable}
use rust_raknet.Send.TimingLaws.{IsTimeout}
use rust_raknet.Send.Queue.{SendQ}
use rust_raknet.Send.Nacks.{nack}
use rust_raknet.Send.Tick.{tick, tick_all}
use rust_raknet.Send.Flush.{
  Burst, numbered, send_reliable, send_unreliable, send_front, window_full, or_false, sort_flight,
  resend_pending, flush,
}
use rust_raknet.Send.Kept.{IsShrunk, IsKept, send_loop-kept}
use rust_raknet.Send.Conserve.{numbered-flight}

module _ {H : Type 0} where
  unfoldable pub IsPaced : SendQ H → Type 0
  IsPaced q = IsTimeout q.rto

  shrunk-IsPaced : (q q' : SendQ H) → IsShrunk q q' → IsPaced q → IsPaced q'
  unfolding IsPaced
  shrunk-IsPaced q q' shrunk h = shrunk.rto h

  nack-IsPaced : (q : SendQ H) (sequence time : ℕ) → IsPaced q → IsPaced (nack q sequence time)
  unfolding nack IsPaced
  nack-IsPaced q sequence time h = h

  pub IsPaced-IsKept : IsKept IsPaced
  IsPaced-IsKept = record { shrunk = shrunk-IsPaced; nacked = nack-IsPaced }

  tick-rto : (q : SendQ H) (now : ℕ) → (tick q now).rto ≡ q.rto
  unfolding tick tick_all
  tick-rto q now = elim (Bool-cases (ltb now q.next_retry)) [
    | inl e ↦ rw e refl
    | inr e ↦ rw e refl
  ]

  sort_flight-rto : (q : SendQ H) → (sort_flight q).rto ≡ q.rto
  unfolding sort_flight
  sort_flight-rto q = elim (Bool-cases q.flight_order_dirty) [
    | inl e ↦ rw e refl
    | inr e ↦ rw e refl
  ]

  resend_pending-rto : (q : SendQ H) (now : ℕ) → (resend_pending q now).0.rto ≡ q.rto
  unfolding resend_pending
  resend_pending-rto q now = elim (Bool-cases q.retries_pending) [
    | inl e ↦ rw e refl
    | inr e ↦ rw e refl
  ]

  send_reliable-rto :
      (now : ℕ) (bp : Burst H × FrameSetPacket H)
      → (send_reliable now bp).queue.rto ≡ bp.0.queue.rto
  unfolding send_reliable
  send_reliable-rto now bp = refl

module _ {H : Type 0} (bytes_deref : H → List ℕ) where
  send_unreliable-rto :
      (bp : Burst H × FrameSetPacket H)
      → (send_unreliable bytes_deref bp).queue.rto ≡ bp.0.queue.rto
  unfolding send_unreliable
  send_unreliable-rto bp = refl

  send_front-rto :
      (now : ℕ) (b : Burst H) (packet : FrameSetPacket H) (rest : List (FrameSetPacket H))
      → (send_front bytes_deref now b packet rest).queue.rto ≡ b.queue.rto
  unfolding send_front
  send_front-rto now b packet rest =
      let popped : Burst H = record b { queue = record b.queue { packets = rest } } in
      let n = numbered bytes_deref popped packet in
      let same : n.0.queue.rto ≡ b.queue.rto =
        ap (λ f. f.2) (numbered-flight bytes_deref popped packet) in
      elim (Bool-cases (or_false (is_reliable packet))) [
        | inl f ↦ elim (Bool-cases (window_full b.queue)) [
          | inl g ↦ rw (f, g) refl
          | inr g ↦ rw (f, g) (send_reliable-rto now n ∙ same)
        ]
        | inr f ↦ rw f (send_unreliable-rto n ∙ same)
      ]

  flush-rto : (q : SendQ H) (now : ℕ) → (flush bytes_deref q now).1.rto ≡ q.rto
  unfolding flush
  flush-rto q now =
      let sorted = sort_flight (tick q now) in
      let resending = (resend_pending sorted now).0 in
      send_loop-kept bytes_deref (λ b. b.queue.rto ≡ q.rto) now
        (λ b packet rest e h. send_front-rto now b packet rest ∙ h) (length resending.packets) _
        (resend_pending-rto sorted now ∙ sort_flight-rto (tick q now) ∙ tick-rto q now)

  pub flush-IsPaced : (q : SendQ H) (now : ℕ) → IsPaced q → IsPaced (flush bytes_deref q now).1
  unfolding IsPaced
  flush-IsPaced q now h = subst IsTimeout (sym (flush-rto q now)) h
