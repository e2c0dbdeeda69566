-- ===== src/Send/PendingFlush.antt =====
-- On the packets that wait to be sent again, through `flush`.
use rust_raknet.Prelude.{
  ℕ, ◌≡◌, refl, sym, ap, ◌∙◌, inl, inr, Bool, true, false, List, [], ◌∷◌, length, All, All-append,
  subst, if◌then◌else◌, Bool-cases,
}
use rust_raknet.Frame.Packet.{FrameSetPacket, is_reliable}
use rust_raknet.Send.Queue.{SendQ, SentPacket}
use rust_raknet.Send.Tick.{tick}
use rust_raknet.Send.Flush.{
  Burst, numbered, send_reliable, send_unreliable, send_front, window_full, or_false, sort_flight,
  sent_again, resent_items, resend_pending, flush,
}
use rust_raknet.Send.Kept.{send_loop-kept}
use rust_raknet.Send.Conserve.{numbered-flight}
use rust_raknet.Send.Pending.{IsAnnounced, IsPending, tick-IsPending, sort_flight-IsPending}

module _ {H : Type 0} where
  unfoldable pub IsFlying : SendQ H → Type 0
  IsFlying q = All (λ item. item.in_flight ≡ true) q.sent_packet

  again_flying :
      (flight : Bool) (now : ℕ) (item : SentPacket H)
      → item.in_flight ≡ flight
      → (if flight then item else sent_again now item).in_flight ≡ true
  unfolding sent_again
  again_flying true now item e = e
  again_flying false now item e = refl

  resent_items-flying :
      (now : ℕ) (items : List (SentPacket H))
      → All (λ item. item.in_flight ≡ true) (resent_items now items)
  unfolding resent_items
  resent_items-flying now [] = tt
  resent_items-flying now (item ∷ items) =
      (again_flying item.in_flight now item refl, resent_items-flying now items)

  -- Packets that nothing announces are in flight.
  quiet_flying :
      (items : List (SentPacket H))
      → All (IsAnnounced false) items
      → All (λ item. item.in_flight ≡ true) items
  unfolding IsAnnounced
  quiet_flying [] a = tt
  quiet_flying (item ∷ items) (here, a) = (
    elim (Bool-cases item.in_flight) [ inl e ↦ e | inr e ↦ let f : false ≡ true = here e in cc ],
    quiet_flying items a,
  )

  resend_pending-IsFlying :
      (q : SendQ H) (now : ℕ) → IsPending q → IsFlying (resend_pending q now).0
  unfolding resend_pending IsFlying IsPending
  resend_pending-IsFlying q now h = elim (Bool-cases q.retries_pending) [
    | inl e ↦ rw e (resent_items-flying now q.sent_packet)
    | inr e ↦ rw e (quiet_flying q.sent_packet (subst (λ b. All (IsAnnounced b) q.sent_packet) e h))
  ]

  IsFlying-sent : (q q' : SendQ H) → q'.sent_packet ≡ q.sent_packet → IsFlying q → IsFlying q'
  unfolding IsFlying
  IsFlying-sent q q' e h = subst (λ items. All (λ item. item.in_flight ≡ true) items) (sym e) h

  send_reliable-IsFlying :
      (now : ℕ) (bp : Burst H × FrameSetPacket H)
      → IsFlying bp.0.queue
      → IsFlying (send_reliable now bp).queue
  unfolding send_reliable IsFlying
  send_reliable-IsFlying now bp h = All-append _ bp.0.queue.sent_packet _ h (refl, tt)

  in_flight-IsAnnounced :
      (pending : Bool) (items : List (SentPacket H))
      → All (λ item. item.in_flight ≡ true) items
      → All (IsAnnounced pending) items
  unfolding IsAnnounced
  in_flight-IsAnnounced pending [] a = tt
  in_flight-IsAnnounced pending (item ∷ items) (here, a) =
      (λ e. let f : true ≡ false = sym here ∙ e in cc, in_flight-IsAnnounced pending items a)

  pub IsFlying-IsPending : (q : SendQ H) → IsFlying q → IsPending q
  unfolding IsFlying IsPending
  IsFlying-IsPending q h = in_flight-IsAnnounced q.retries_pending q.sent_packet h

module _ {H : Type 0} (bytes_deref : H → List ℕ) where
  send_unreliable-IsFlying :
      (bp : Burst H × FrameSetPacket H)
      → IsFlying bp.0.queue
      → IsFlying (send_unreliable bytes_deref bp).queue
  unfolding send_unreliable IsFlying
  send_unreliable-IsFlying bp h = h

  send_front-IsFlying :
      (now : ℕ) (b : Burst H) (packet : FrameSetPacket H) (rest : List (FrameSetPacket H))
      → IsFlying b.queue
      → IsFlying (send_front bytes_deref now b packet rest).queue
  unfolding send_front
  send_front-IsFlying now b packet rest h =
      let popped : Burst H = record b { queue = record b.queue { packets = rest } } in
      let n = numbered bytes_deref popped packet in
      let kept : IsFlying n.0.queue =
        IsFlying-sent b.queue n.0.queue (ap (λ f. f.1) (numbered-flight bytes_deref popped packet))
          h in
      elim (Bool-cases (or_false (is_reliable packet))) [
        | inl f ↦ elim (Bool-cases (window_full b.queue)) [
          | inl g ↦ rw (f, g) (IsFlying-sent b.queue _ refl h)
          | inr g ↦ rw (f, g) (send_reliable-IsFlying now n kept)
        ]
        | inr f ↦ rw f (send_unreliable-IsFlying n kept)
      ]

  pub flush-IsFlying : (q : SendQ H) (now : ℕ) → IsPending q → IsFlying (flush bytes_deref q now).1
  unfolding flush
  flush-IsFlying q now h =
      let resending = (resend_pending (sort_flight (tick q now)) now).0 in
      send_loop-kept bytes_deref (λ b. IsFlying b.queue) now
        (λ b packet rest e. send_front-IsFlying now b packet rest) (length resending.packets) _
        (resend_pending-IsFlying (sort_flight (tick q now)) now
          (sort_flight-IsPending (tick q now) (tick-IsPending q now h)))
