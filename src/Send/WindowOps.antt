-- ===== src/Send/WindowOps.antt =====
-- On the number of packets in flight through `flush`.
use rust_raknet.Prelude.{ℕ, ◌+◌, ◌<◌, ◌≡◌, refl, ap, inl, inr, List, length, arith, Bool-cases}
use rust_raknet.Frame.Packet.{FrameSetPacket, is_reliable}
use rust_raknet.Send.Queue.{SendQ}
use rust_raknet.Send.Tick.{tick}
use rust_raknet.Send.Flush.{
  Burst, numbered, send_reliable, send_unreliable, send_front, window_full, or_false, sort_flight,
  resend_pending, flush,
}
use rust_raknet.Send.Kept.{send_loop-kept}
use rust_raknet.Send.Conserve.{numbered-flight}
use rust_raknet.Send.Window.{
  in_window, IsInWindow, length-append_one, in_window-tick, in_window-sort_flight,
  in_window-resend_pending,
}

module _ {H : Type 0} (bytes_deref : H → List ℕ) where
  send_reliable-length :
      (now : ℕ) (bp : Burst H × FrameSetPacket H)
      → in_window (send_reliable now bp).queue ≡ in_window bp.0.queue + 1
  unfolding send_reliable
  send_reliable-length now bp = length-append_one bp.0.queue.sent_packet _

  send_unreliable-length :
      (bp : Burst H × FrameSetPacket H)
      → in_window (send_unreliable bytes_deref bp).queue ≡ in_window bp.0.queue
  unfolding send_unreliable
  send_unreliable-length bp = refl

  -- A round sends a reliable frame only into a window that has a place.
  send_front-IsInWindow :
      (now : ℕ) (b : Burst H) (packet : FrameSetPacket H) (rest : List (FrameSetPacket H))
      → IsInWindow b.queue
      → IsInWindow (send_front bytes_deref now b packet rest).queue
  unfolding send_front IsInWindow
  send_front-IsInWindow now b packet rest h =
      let popped : Burst H = record b { queue = record b.queue { packets = rest } } in
      let n = numbered bytes_deref popped packet in
      let kept : in_window n.0.queue ≡ in_window b.queue =
        ap (λ f. length f.1) (numbered-flight bytes_deref popped packet) in
      elim (Bool-cases (or_false (is_reliable packet))) [
        | inl f ↦ elim (Bool-cases (window_full b.queue)) [
          | inl g ↦ rw (f, g) h
          | inr g ↦
              let room : in_window b.queue < 64 = ground (arith, g) in
              rw (f, g) (omega (arith, room, kept, send_reliable-length now n))
        ]
        | inr f ↦ rw f (omega (arith, h, kept, send_unreliable-length n))
      ]

  pub flush-IsInWindow :
      (q : SendQ H) (now : ℕ) → IsInWindow q → IsInWindow (flush bytes_deref q now).1
  unfolding flush
  flush-IsInWindow q now h =
      let resending = (resend_pending (sort_flight (tick q now)) now).0 in
      send_loop-kept bytes_deref (λ b. IsInWindow b.queue) now
        (λ b packet rest e. send_front-IsInWindow now b packet rest) (length resending.packets) _
        (unfold IsInWindow in
          omega (
            arith,
            h,
            in_window-resend_pending (sort_flight (tick q now)) now,
            in_window-sort_flight (tick q now),
            in_window-tick q now,
          ))
