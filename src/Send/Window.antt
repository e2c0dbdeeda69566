-- ===== src/Send/Window.antt =====
-- On the number of packets in flight through `tick`, sorting and sending again.
use rust_raknet.Prelude.{
  ℕ, ◌+◌, ◌≤◌, ◌≡◌, refl, sym, ◌∙◌, inl, inr, true, List, [], ◌∷◌, ◌++◌, length, ltb, arith,
  Bool-cases,
}
use rust_raknet.Send.Timing.{i64_max}
use rust_raknet.Send.Queue.{SendQ, SentPacket}
use rust_raknet.Send.Nacks.{nack}
use rust_raknet.Send.Tick.{tick, tick_all}
use rust_raknet.Send.Flush.{sort_flight, resend_pending}
use rust_raknet.Send.Kept.{IsShrunk, IsKept}
use rust_raknet.Send.Tally.{
  tally_sent, tally_sent-length, every-IsBlind, nack_loop-tally, scan-tally, sorted-tally,
  resent_items-tally,
}

module _ {H : Type 0} where
  abbrev pub in_window : SendQ H → ℕ
  in_window q = length q.sent_packet

  -- Lists of packets that count alike are equally long.
  tally-length :
      (items items' : List (SentPacket H))
      → tally_sent (λ frame. true) items' ≡ tally_sent (λ frame. true) items
      → length items' ≡ length items
  tally-length items items' e = sym (tally_sent-length items') ∙ e ∙ tally_sent-length items

  pub in_window-nack :
      (q : SendQ H) (sequence tick : ℕ) → in_window (nack q sequence tick) ≡ in_window q
  unfolding nack
  in_window-nack q sequence tick = tally-length q.sent_packet _ (
      nack_loop-tally (λ frame. true) sequence tick q.sequence_number q.sent_packet
        (every-IsBlind H))

  pub in_window-tick : (q : SendQ H) (now : ℕ) → in_window (tick q now) ≡ in_window q
  unfolding tick tick_all
  in_window-tick q now = elim (Bool-cases (ltb now q.next_retry)) [
    | inl e ↦ rw e refl
    | inr e ↦ rw e (
        tally-length q.sent_packet _ (
          scan-tally (λ frame. true) q.rto now q.sequence_number i64_max q.sent_packet
            (every-IsBlind H)))
  ]

  pub in_window-sort_flight : (q : SendQ H) → in_window (sort_flight q) ≡ in_window q
  unfolding sort_flight
  in_window-sort_flight q = elim (Bool-cases q.flight_order_dirty) [
    | inl e ↦ rw e (tally-length q.sent_packet _ (sorted-tally (λ frame. true) q.sent_packet))
    | inr e ↦ rw e refl
  ]

  pub in_window-resend_pending :
      (q : SendQ H) (now : ℕ) → in_window (resend_pending q now).0 ≡ in_window q
  unfolding resend_pending
  in_window-resend_pending q now = elim (Bool-cases q.retries_pending) [
    | inl e ↦
        rw e (tally-length q.sent_packet _ (resent_items-tally (λ frame. true) now q.sent_packet))
    | inr e ↦ rw e refl
  ]

  pub length-append_one :
      (items : List (SentPacket H)) (item : SentPacket H)
      → length (items ++ item ∷ []) ≡ length items + 1
  length-append_one [] item = refl
  length-append_one (other ∷ items) item = omega (arith, length-append_one items item)

  unfoldable pub IsInWindow : SendQ H → Type 0
  IsInWindow q = in_window q ≤ 64

  shrunk-IsInWindow : (q q' : SendQ H) → IsShrunk q q' → IsInWindow q → IsInWindow q'
  unfolding IsInWindow
  shrunk-IsInWindow q q' shrunk h = omega (arith, h, shrunk.part.shorter)

  nack-IsInWindow :
      (q : SendQ H) (sequence time : ℕ) → IsInWindow q → IsInWindow (nack q sequence time)
  unfolding IsInWindow
  nack-IsInWindow q sequence time h = omega (arith, h, in_window-nack q sequence time)

  pub IsInWindow-IsKept : IsKept IsInWindow
  IsInWindow-IsKept = record { shrunk = shrunk-IsInWindow; nacked = nack-IsInWindow }
