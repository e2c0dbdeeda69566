-- ===== src/Send/Retry.antt =====
-- On the test of `tick` by which it skips its scan.
use rust_raknet.Prelude.{
  ℕ, ◌≤◌, ◌<◌, ◌≡◌, refl, sym, ap, ◌∙◌, inl, inr, true, false, ◌&&◌, List, [], ◌∷◌, All, min, ltb,
  if◌then◌else◌, arith, Bool-cases, ltb→lt,
}
use rust_raknet.Send.Timing.{i64_max}
use rust_raknet.Send.Queue.{SendQ, SentPacket}
use rust_raknet.Send.Nacks.{Renumbered, resend}
use rust_raknet.Send.Tick.{overdue, due, scan, tick, tick_all}

module _ {H : Type 0} where
  -- A packet in flight is due at `next_retry` or later.
  unfoldable pub IsAwaited : ℕ → ℕ → SentPacket H → Type 0
  IsAwaited rto next_retry item = item.in_flight ≡ true → next_retry ≤ due rto item

  unfoldable pub IsTimely : SendQ H → Type 0
  IsTimely q = All (IsAwaited q.rto q.next_retry) q.sent_packet

  pub not_overdue :
      (rto now earliest : ℕ) (item : SentPacket H)
      → IsAwaited rto earliest item
      → now < earliest
      → overdue rto now item ≡ false
  unfolding overdue IsAwaited
  not_overdue rto now earliest item h lt = elim (Bool-cases item.in_flight) [
    | inl e ↦ rw e (ground (arith, h e))
    | inr e ↦ rw e refl
  ]

  scan_none :
      (rto now number next_retry earliest : ℕ) (items : List (SentPacket H))
      → All (IsAwaited rto earliest) items
      → now < earliest
      → (scan rto now items number next_retry).renumbered
        ≡ record { items = items; sequence_number = number; any = false }
  unfolding scan
  scan_none rto now number next_retry earliest [] h lt = refl
  scan_none rto now number next_retry earliest (item ∷ items) (here, h) lt =
      rw (not_overdue rto now earliest item here lt) (
        ap (λ (r : Renumbered H). record r { items = item ∷ r.items })
          (scan_none rto now number
            (if item.in_flight && true then min next_retry (due rto item) else next_retry) earliest
            items h lt))

  resend_none :
      (q : SendQ H)
      → record q { next_retry = 0 }
        ≡ record (resend q
            (record { items = q.sent_packet; sequence_number = q.sequence_number; any = false })) {
              next_retry = 0;
            }
  resend_none q = ground arith

  -- Where `next_retry` is early enough, `tick` may skip its scan.
  pub tick-tick_all :
      (q : SendQ H) (now : ℕ)
      → IsTimely q
      → record (tick q now) { next_retry = 0 } ≡ record (tick_all q now) { next_retry = 0 }
  unfolding tick tick_all IsTimely
  tick-tick_all q now h = elim (Bool-cases (ltb now q.next_retry)) [
    | inl e ↦ rw e (
        resend_none q
        ∙ ap (λ (r : Renumbered H). record (resend q r) { next_retry = 0 })
            (sym (
              scan_none q.rto now q.sequence_number i64_max q.next_retry q.sent_packet h
                (ltb→lt now q.next_retry e))))
    | inr e ↦ rw e refl
  ]
