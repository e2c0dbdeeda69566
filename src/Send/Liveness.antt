-- ===== src/Send/Liveness.antt =====
-- On the frames that `flush` puts out for packets that are due.
use rust_raknet.Prelude.{
  ℕ, ◌+◌, ◌≤◌, ◌<◌, ◌≡◌, refl, sym, ap, inl, inr, Bool, true, false, not, ◌&&◌, ◌||◌, none, List,
  [], ◌∷◌, ◌++◌, length, min, All, subst, ltb, leb, if◌then◌else◌, arith, Bool-cases, ltb→lt,
}
use rust_raknet.Sequence.{next}
use rust_raknet.Frame.Packet.{FrameSetPacket, is_reliable}
use rust_raknet.Send.Timing.{i64_max}
use rust_raknet.Send.Queue.{SendQ, SentPacket}
use rust_raknet.Send.Nacks.{renumbered}
use rust_raknet.Send.Tick.{overdue, due, scan, tick, tick_all}
use rust_raknet.Send.Flush.{
  Burst, insert_sorted, joins, sorted, sort_flight, resent_frames, resend_pending, numbered,
  send_reliable, send_unreliable, send_front, window_full, or_false, flush,
}
use rust_raknet.Send.Kept.{send_loop-kept}
use rust_raknet.Send.Retry.{IsAwaited, IsTimely, not_overdue}
use rust_raknet.Send.Tally.{one_if, IsBlind, tally, tally-append}
use rust_raknet.Send.Pending.{IsAnnounced, IsPending, tick-IsPending, sort_flight-IsPending}

module _ {H : Type 0} where
  -- How many of the packets pass a test, with frames that pass another.
  unfoldable pub tally_where :
      (SentPacket H → Bool) → (FrameSetPacket H → Bool) → List (SentPacket H) → ℕ
  tally_where w p [] = 0
  tally_where w p (item ∷ items) = one_if (w item && p item.frame) + tally_where w p items

  -- It waits to be sent again, or its time is over.
  abbrev pub is_due : ℕ → ℕ → SentPacket H → Bool
  is_due rto now item = overdue rto now item || not item.in_flight

  abbrev waits : SentPacket H → Bool
  waits item = not item.in_flight

  due_cons :
      (hit : Bool) (p : FrameSetPacket H → Bool) (item : SentPacket H) (number n n' : ℕ)
      → IsBlind p
      → n ≡ n'
      → one_if ((hit || not item.in_flight) && p item.frame) + n
        ≡ one_if (
            waits (if hit then renumbered item number else item)
            && p (if hit then renumbered item number else item).frame)
          + n'
  unfolding IsBlind renumbered
  due_cons true p item number n n' blind e = rw (e, blind item.frame number) refl
  due_cons false p item number n n' blind e = rw e refl

  scan-due :
      (p : FrameSetPacket H → Bool) (rto now number n : ℕ) (items : List (SentPacket H))
      → IsBlind p
      → tally_where (is_due rto now) p items
        ≡ tally_where waits p (scan rto now items number n).renumbered.items
  unfolding scan tally_where
  scan-due p rto now number n [] blind = refl
  scan-due p rto now number n (item ∷ items) blind =
      let hit = overdue rto now item in
      due_cons hit p item number _ _ blind (
        scan-due p rto now (if hit then next number else number)
          (if item.in_flight && not hit then min n (due rto item) else n) items blind)

  none_due :
      (p : FrameSetPacket H → Bool) (rto now earliest : ℕ) (items : List (SentPacket H))
      → All (IsAwaited rto earliest) items
      → now < earliest
      → tally_where (is_due rto now) p items ≡ tally_where waits p items
  unfolding tally_where
  none_due p rto now earliest [] a lt = refl
  none_due p rto now earliest (item ∷ items) (here, a) lt =
      rw (not_overdue rto now earliest item here lt, none_due p rto now earliest items a lt) refl

  tick-due :
      (p : FrameSetPacket H → Bool) (q : SendQ H) (now : ℕ)
      → IsBlind p
      → IsTimely q
      → tally_where (is_due q.rto now) p q.sent_packet
        ≡ tally_where waits p (tick q now).sent_packet
  unfolding tick tick_all IsTimely
  tick-due p q now blind h = elim (Bool-cases (ltb now q.next_retry)) [
    | inl e ↦ rw e (none_due p q.rto now q.next_retry q.sent_packet h (ltb→lt now q.next_retry e))
    | inr e ↦ rw e (scan-due p q.rto now q.sequence_number i64_max q.sent_packet blind)
  ]

  insert_sorted-where :
      (w : SentPacket H → Bool) (p : FrameSetPacket H → Bool) (item : SentPacket H)
      (items : List (SentPacket H))
      → tally_where w p (insert_sorted item items) ≡ tally_where w p (item ∷ items)
  unfolding insert_sorted tally_where
  insert_sorted-where w p item [] = refl
  insert_sorted-where w p item (other ∷ items) =
      elim (Bool-cases (leb item.frame.sequence_number other.frame.sequence_number)) [
        | inl e ↦ rw e refl
        | inr e ↦ rw e (omega (arith, insert_sorted-where w p item items))
      ]

  sorted-where :
      (w : SentPacket H → Bool) (p : FrameSetPacket H → Bool) (items : List (SentPacket H))
      → tally_where w p (sorted items) ≡ tally_where w p items
  unfolding sorted tally_where
  sorted-where w p [] = refl
  sorted-where w p (item ∷ items) =
      omega (arith, insert_sorted-where w p item (sorted items), sorted-where w p items)

  sort_flight-where :
      (w : SentPacket H → Bool) (p : FrameSetPacket H → Bool) (q : SendQ H)
      → tally_where w p (sort_flight q).sent_packet ≡ tally_where w p q.sent_packet
  unfolding sort_flight
  sort_flight-where w p q = elim (Bool-cases q.flight_order_dirty) [
    | inl e ↦ rw e (sorted-where w p q.sent_packet)
    | inr e ↦ rw e refl
  ]

  resent_frames-tally :
      (p : FrameSetPacket H → Bool) (items : List (SentPacket H))
      → tally p (resent_frames items) ≡ tally_where waits p items
  unfolding resent_frames tally tally_where
  resent_frames-tally p [] = refl
  resent_frames-tally p (item ∷ items) = elim (Bool-cases item.in_flight) [
    | inl e ↦ rw e (omega (arith, resent_frames-tally p items))
    | inr e ↦ rw e (omega (arith, resent_frames-tally p items))
  ]

  none_wait :
      (p : FrameSetPacket H → Bool) (items : List (SentPacket H))
      → All (IsAnnounced false) items
      → tally_where waits p items ≡ 0
  unfolding tally_where IsAnnounced
  none_wait p [] a = refl
  none_wait p (item ∷ items) (here, a) = elim (Bool-cases item.in_flight) [
    | inl e ↦ rw e (omega (arith, none_wait p items a))
    | inr e ↦ let f : false ≡ true = here e in absurd (cc)
  ]

  resend_pending-tally :
      (p : FrameSetPacket H → Bool) (q : SendQ H) (now : ℕ)
      → IsPending q
      → tally p (resend_pending q now).1 ≡ tally_where waits p q.sent_packet
  unfolding resend_pending IsPending tally
  resend_pending-tally p q now h = elim (Bool-cases q.retries_pending) [
    | inl e ↦ rw e (resent_frames-tally p q.sent_packet)
    | inr e ↦
        rw e (sym (none_wait p q.sent_packet (subst (λ b. All (IsAnnounced b) q.sent_packet) e h)))
  ]

module _ {H : Type 0} (bytes_deref : H → List ℕ) where
  numbered_frames :
      (b : Burst H) (packet : FrameSetPacket H)
      → (numbered bytes_deref b packet).0.output.frames ≡ b.output.frames
  unfolding numbered
  numbered_frames b packet = elim (Bool-cases b.queue.coalesce) [
    | inl e ↦ elim (Bool-cases (joins bytes_deref b packet)) [
      | inl f ↦ rw (e, f) refl
      | inr f ↦ rw (e, f) refl
    ]
    | inr e ↦ rw e refl
  ]

  pushed_tally :
      (p : FrameSetPacket H → Bool) (frames : List (FrameSetPacket H)) (frame : FrameSetPacket H)
      → tally p frames ≤ tally p (frames ++ frame ∷ [])
  pushed_tally p frames frame = omega (arith, tally-append p frames (frame ∷ []))

  sent_tally :
      (p : FrameSetPacket H → Bool) (now : ℕ) (bp : Burst H × FrameSetPacket H)
      → tally p bp.0.output.frames ≤ tally p (send_reliable now bp).output.frames
  unfolding send_reliable
  sent_tally p now bp = pushed_tally p bp.0.output.frames bp.1

  sent_unreliable_tally :
      (p : FrameSetPacket H → Bool) (bp : Burst H × FrameSetPacket H)
      → tally p bp.0.output.frames ≤ tally p (send_unreliable bytes_deref bp).output.frames
  unfolding send_unreliable
  sent_unreliable_tally p bp = pushed_tally p bp.0.output.frames bp.1

  -- A round only adds to the output.
  send_front-output :
      (p : FrameSetPacket H → Bool) (now : ℕ) (b : Burst H) (packet : FrameSetPacket H)
      (rest : List (FrameSetPacket H))
      → tally p b.output.frames ≤ tally p (send_front bytes_deref now b packet rest).output.frames
  unfolding send_front
  send_front-output p now b packet rest =
      let popped : Burst H = record b { queue = record b.queue { packets = rest } } in
      let n = numbered bytes_deref popped packet in
      let same = ap (tally p) (numbered_frames popped packet) in
      elim (Bool-cases (or_false (is_reliable packet))) [
        | inl f ↦ elim (Bool-cases (window_full b.queue)) [
          | inl g ↦ rw (f, g) (omega arith)
          | inr g ↦ rw (f, g) (omega (arith, same, sent_tally p now n))
        ]
        | inr f ↦ rw f (omega (arith, same, sent_unreliable_tally p n))
      ]

  -- What is due is in the output.
  pub flush-due :
      (p : FrameSetPacket H → Bool) (q : SendQ H) (now : ℕ)
      → IsBlind p
      → IsTimely q
      → IsPending q
      → tally_where (is_due q.rto now) p q.sent_packet ≤ tally p (flush bytes_deref q now).0.frames
  unfolding flush
  flush-due p q now blind timely pending =
      let ticked = tick q now in
      let flying = sort_flight ticked in
      let resent = resend_pending flying now in
      let grown : tally p resent.1 ≤ _ =
        send_loop-kept bytes_deref (λ b. tally p resent.1 ≤ tally p b.output.frames) now
          (λ b packet rest e h. omega (arith, h, send_front-output p now b packet rest))
          (length resent.0.packets)
          (record {
            queue = resent.0;
            output = record { frames = resent.1; coalesced = false };
            group_sequence = none;
            group_bytes = 0;
            group_frames = 0;
          })
          (omega arith) in
      omega (
        arith,
        grown,
        tick-due p q now blind timely,
        sort_flight-where (λ item. not item.in_flight) p ticked,
        resend_pending-tally p flying now
            (sort_flight-IsPending ticked (tick-IsPending q now pending)),
      )
