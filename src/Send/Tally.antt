-- ===== src/Send/Tally.antt =====
-- Counts of frames and packets of a queue, by tests that do not look at sequence numbers.
use rust_raknet.Prelude.{
  ℕ, ◌+◌, ◌≡◌, refl, ap, ◌∙◌, inl, inr, Bool, true, false, not, ◌&&◌, List, [], ◌∷◌, ◌++◌, length,
  min, ltb, leb, if◌then◌else◌, arith, Bool-cases,
}
use rust_raknet.Sequence.{next, distance}
use rust_raknet.Frame.Packet.{FrameSetPacket}
use rust_raknet.Send.Timing.{i64_max}
use rust_raknet.Send.Queue.{SendQ, SentPacket}
use rust_raknet.Send.Nacks.{renumbered, lost, nack_loop, nack, nack_all, skipped, advance}
use rust_raknet.Send.Tick.{overdue, due, scan, tick, tick_all}
use rust_raknet.Send.Flush.{insert_sorted, sorted, sort_flight, sent_again, resent_items}

abbrev pub one_if : Bool → ℕ
one_if b = if b then 1 else 0

module _ {H : Type 0} where
  -- The test does not look at the sequence number.
  unfoldable pub IsBlind : (FrameSetPacket H → Bool) → Type 0
  IsBlind p =
      (frame : FrameSetPacket H) (n : ℕ) → p (record frame { sequence_number = n }) ≡ p frame

  unfoldable pub tally : (FrameSetPacket H → Bool) → List (FrameSetPacket H) → ℕ
  tally p [] = 0
  tally p (frame ∷ frames) = one_if (p frame) + tally p frames

  unfoldable pub tally_sent : (FrameSetPacket H → Bool) → List (SentPacket H) → ℕ
  tally_sent p [] = 0
  tally_sent p (item ∷ items) = one_if (p item.frame) + tally_sent p items

  -- The frames of both queues that pass the test.
  unfoldable pub held : (FrameSetPacket H → Bool) → SendQ H → ℕ
  unfolding tally tally_sent
  held p q = tally p q.packets + tally_sent p q.sent_packet

  pub tally-append :
      (p : FrameSetPacket H → Bool) (front back : List (FrameSetPacket H))
      → tally p (front ++ back) ≡ tally p front + tally p back
  unfolding tally
  tally-append p [] back = omega arith
  tally-append p (frame ∷ front) back = omega (arith, tally-append p front back)

  pub tally_sent-append :
      (p : FrameSetPacket H → Bool) (front back : List (SentPacket H))
      → tally_sent p (front ++ back) ≡ tally_sent p front + tally_sent p back
  unfolding tally_sent
  tally_sent-append p [] back = omega arith
  tally_sent-append p (item ∷ front) back = omega (arith, tally_sent-append p front back)

  -- The count of all packets is their number.
  pub tally_sent-length :
      (items : List (SentPacket H)) → tally_sent (λ frame. true) items ≡ length items
  unfolding tally_sent
  tally_sent-length [] = refl
  tally_sent-length (item ∷ items) = omega (arith, tally_sent-length items)

  -- Two packets with frames that the test does not tell apart count alike.
  cons_tally :
      (p : FrameSetPacket H → Bool) (item item' : SentPacket H) (items items' : List (SentPacket H))
      → p item'.frame ≡ p item.frame
      → tally_sent p items' ≡ tally_sent p items
      → tally_sent p (item' ∷ items') ≡ tally_sent p (item ∷ items)
  unfolding tally_sent
  cons_tally p item item' items items' e rest = rw (e, rest) refl

  renumbered_test :
      (p : FrameSetPacket H → Bool) (hit : Bool) (item : SentPacket H) (number : ℕ)
      → IsBlind p
      → p (if hit then renumbered item number else item).frame ≡ p item.frame
  unfolding renumbered IsBlind
  renumbered_test p true item number blind = blind item.frame number
  renumbered_test p false item number blind = refl

  nacked_test :
      (p : FrameSetPacket H → Bool) (hit : Bool) (item : SentPacket H) (number tick : ℕ)
      → IsBlind p
      → p (if hit then record (renumbered item number) { time = tick } else item).frame
        ≡ p item.frame
  unfolding renumbered IsBlind
  nacked_test p true item number tick blind = blind item.frame number
  nacked_test p false item number tick blind = refl

  pub nack_loop-tally :
      (p : FrameSetPacket H → Bool) (sequence tick number : ℕ) (items : List (SentPacket H))
      → IsBlind p
      → tally_sent p (nack_loop items sequence tick number).items ≡ tally_sent p items
  unfolding nack_loop
  nack_loop-tally p sequence tick number [] blind = refl
  nack_loop-tally p sequence tick number (item ∷ items) blind =
      cons_tally p item _ items _ (nacked_test p (lost item sequence) item number tick blind) (
        nack_loop-tally p sequence tick (if lost item sequence then next number else number) items
          blind)

  pub held-nack :
      (p : FrameSetPacket H → Bool) (q : SendQ H) (sequence tick : ℕ)
      → IsBlind p
      → held p (nack q sequence tick) ≡ held p q
  unfolding nack held
  held-nack p q sequence tick blind =
      ap (λ n. tally p q.packets + n)
        (nack_loop-tally p sequence tick q.sequence_number q.sent_packet blind)

  pub held-nack_all :
      (p : FrameSetPacket H → Bool) (q : SendQ H) (ids : List ℕ) (tick : ℕ)
      → IsBlind p
      → held p (nack_all q ids tick) ≡ held p q
  unfolding nack_all
  held-nack_all p q [] tick blind = refl
  held-nack_all p q (id ∷ ids) tick blind =
      held-nack_all p (nack q id tick) ids tick blind ∙ held-nack p q id tick blind

  pub held-advance :
      (p : FrameSetPacket H → Bool) (q : SendQ H) (newest tick : ℕ)
      → IsBlind p
      → held p (advance q newest tick) ≡ held p q
  unfolding advance held
  held-advance p q newest tick blind =
      held-nack_all p q
        (skipped q.sent_packet q.ack_sequence_number (distance newest q.ack_sequence_number)) tick
        blind

  pub scan-tally :
      (p : FrameSetPacket H → Bool) (rto now number n : ℕ) (items : List (SentPacket H))
      → IsBlind p
      → tally_sent p (scan rto now items number n).renumbered.items ≡ tally_sent p items
  unfolding scan
  scan-tally p rto now number n [] blind = refl
  scan-tally p rto now number n (item ∷ items) blind =
      let hit = overdue rto now item in
      cons_tally p item _ items _ (renumbered_test p hit item number blind) (
        scan-tally p rto now (if hit then next number else number)
          (if item.in_flight && not hit then min n (due rto item) else n) items blind)

  pub held-tick :
      (p : FrameSetPacket H → Bool) (q : SendQ H) (now : ℕ)
      → IsBlind p
      → held p (tick q now) ≡ held p q
  unfolding tick tick_all held
  held-tick p q now blind = elim (Bool-cases (ltb now q.next_retry)) [
    | inl e ↦ rw e refl
    | inr e ↦ rw e (
        ap (λ n. tally p q.packets + n)
          (scan-tally p q.rto now q.sequence_number i64_max q.sent_packet blind))
  ]

  insert_sorted-tally :
      (p : FrameSetPacket H → Bool) (item : SentPacket H) (items : List (SentPacket H))
      → tally_sent p (insert_sorted item items) ≡ tally_sent p (item ∷ items)
  unfolding insert_sorted tally_sent
  insert_sorted-tally p item [] = refl
  insert_sorted-tally p item (other ∷ items) =
      elim (Bool-cases (leb item.frame.sequence_number other.frame.sequence_number)) [
        | inl e ↦ rw e refl
        | inr e ↦ rw e (omega (arith, insert_sorted-tally p item items))
      ]

  pub sorted-tally :
      (p : FrameSetPacket H → Bool) (items : List (SentPacket H))
      → tally_sent p (sorted items) ≡ tally_sent p items
  unfolding sorted
  sorted-tally p [] = refl
  sorted-tally p (item ∷ items) =
      insert_sorted-tally p item (sorted items)
      ∙ cons_tally p item item items (sorted items) refl (sorted-tally p items)

  pub held-sort_flight :
      (p : FrameSetPacket H → Bool) (q : SendQ H) → held p (sort_flight q) ≡ held p q
  unfolding sort_flight held
  held-sort_flight p q = elim (Bool-cases q.flight_order_dirty) [
    | inl e ↦ rw e (ap (λ n. tally p q.packets + n) (sorted-tally p q.sent_packet))
    | inr e ↦ rw e refl
  ]

  again_test :
      (p : FrameSetPacket H → Bool) (now : ℕ) (flight : Bool) (item : SentPacket H)
      → p (if flight then item else sent_again now item).frame ≡ p item.frame
  unfolding sent_again
  again_test p now true item = refl
  again_test p now false item = refl

  pub resent_items-tally :
      (p : FrameSetPacket H → Bool) (now : ℕ) (items : List (SentPacket H))
      → tally_sent p (resent_items now items) ≡ tally_sent p items
  unfolding resent_items
  resent_items-tally p now [] = refl
  resent_items-tally p now (item ∷ items) =
      cons_tally p item _ items _ (again_test p now item.in_flight item)
        (resent_items-tally p now items)

pub every-IsBlind : (H : Type 0) → IsBlind {H = H} (λ frame. true)
unfolding IsBlind
every-IsBlind H frame n = refl
