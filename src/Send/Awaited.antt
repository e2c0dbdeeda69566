-- ===== src/Send/Awaited.antt =====
-- On `next_retry` of `SendQ` and when packets are due, through `nack` and `tick`.
use rust_raknet.Prelude.{
  ℕ, ◌≤◌, ◌≡◌, refl, sym, inl, inr, Bool, true, false, not, ◌&&◌, ◌||◌, List, [], ◌∷◌, All, min,
  ltb, leb, subst, if◌then◌else◌, arith, Bool-cases,
}
use rust_raknet.Sequence.{next}
use rust_raknet.Send.Timing.{i64_max}
use rust_raknet.Send.Queue.{SendQ, SentPacket}
use rust_raknet.Send.Nacks.{renumbered, lost, nack_loop, nack}
use rust_raknet.Send.Tick.{Scan, overdue, due, scan, tick, tick_all}
use rust_raknet.Send.Flush.{insert_sorted, sorted, sort_flight}
use rust_raknet.Send.Retry.{IsAwaited, IsTimely}

module _ {H : Type 0} where
  -- An earlier time awaits the same packets.
  pub Awaited-earlier :
      (rto n m : ℕ) (items : List (SentPacket H))
      → m ≤ n
      → All (IsAwaited rto n) items
      → All (IsAwaited rto m) items
  unfolding IsAwaited
  Awaited-earlier rto n m [] h a = tt
  Awaited-earlier rto n m (item ∷ items) h (here, a) =
      (λ e. omega (arith, here e), Awaited-earlier rto n m items h a)

  -- Time 0 awaits any packet.
  pub Awaited-zero : (rto : ℕ) (items : List (SentPacket H)) → All (IsAwaited rto 0) items
  unfolding IsAwaited
  Awaited-zero rto [] = tt
  Awaited-zero rto (item ∷ items) = (λ e. omega arith, Awaited-zero rto items)

  renumbered-IsAwaited :
      (rto n number : ℕ) (item : SentPacket H) → IsAwaited rto n (renumbered item number)
  unfolding IsAwaited renumbered
  renumbered-IsAwaited rto n number item e = cc

  nack_loop-IsAwaited :
      (rto n sequence tick number : ℕ) (items : List (SentPacket H))
      → All (IsAwaited rto n) items
      → All (IsAwaited rto n) (nack_loop items sequence tick number).items
  unfolding nack_loop
  nack_loop-IsAwaited rto n sequence tick number [] a = tt
  nack_loop-IsAwaited rto n sequence tick number (item ∷ items) (here, a) =
      elim (Bool-cases (lost item sequence)) [
        | inl e ↦ rw e (
          unfold IsAwaited renumbered in (λ f. cc),
          nack_loop-IsAwaited rto n sequence tick (next number) items a,
        )
        | inr e ↦ rw e (here, nack_loop-IsAwaited rto n sequence tick number items a)
      ]

  pub nack-IsTimely :
      (q : SendQ H) (sequence tick : ℕ) → IsTimely q → IsTimely (nack q sequence tick)
  unfolding nack IsTimely
  nack-IsTimely q sequence tick h =
      nack_loop-IsAwaited q.rto q.next_retry sequence tick q.sequence_number q.sent_packet h

  -- Sorting keeps what holds of every packet.
  insert_sorted-All :
      (P : SentPacket H → Type 0) (item : SentPacket H) (items : List (SentPacket H))
      → P item
      → All P items
      → All P (insert_sorted item items)
  unfolding insert_sorted
  insert_sorted-All P item [] here a = (here, tt)
  insert_sorted-All P item (other ∷ items) here (there, a) =
      elim (Bool-cases (leb item.frame.sequence_number other.frame.sequence_number)) [
        | inl e ↦ rw e (here, (there, a))
        | inr e ↦ rw e (there, insert_sorted-All P item items here a)
      ]

  pub sorted-All :
      (P : SentPacket H → Type 0) (items : List (SentPacket H)) → All P items → All P (sorted items)
  unfolding sorted
  sorted-All P [] a = tt
  sorted-All P (item ∷ items) (here, a) =
      insert_sorted-All P item (sorted items) here (sorted-All P items a)

  pub sort_flight-IsTimely : (q : SendQ H) → IsTimely q → IsTimely (sort_flight q)
  unfolding sort_flight IsTimely
  sort_flight-IsTimely q h = elim (Bool-cases q.flight_order_dirty) [
    | inl e ↦ rw e (sorted-All (IsAwaited q.rto q.next_retry) q.sent_packet h)
    | inr e ↦ rw e h
  ]

  -- The scan of `tick`: the time it leaves is one that it was given or when a packet is due.
  scan-earlier :
      (rto now number n : ℕ) (items : List (SentPacket H))
      → (scan rto now items number n).next_retry ≤ n
  unfolding scan
  scan-earlier rto now number n [] = omega arith
  scan-earlier rto now number n (item ∷ items) =
      let hit = overdue rto now item in
      let n' : ℕ = if item.in_flight && not hit then min n (due rto item) else n in
      let here : n' ≤ n = ground arith in
      omega (arith, here, scan-earlier rto now (if hit then next number else number) n' items)

  -- What the scan keeps of a list of packets.
  IsScanned : ℕ → Scan H → Type 0
  IsScanned rto s = All (IsAwaited rto s.next_retry) s.renumbered.items

  -- The scan of a list, given whether its first packet is overdue.
  abbrev scan_head : Bool → ℕ → ℕ → ℕ → ℕ → SentPacket H → List (SentPacket H) → Scan H
  scan_head hit rto now number n item items =
      let rest =
        scan rto now items (if hit then next number else number)
          (if item.in_flight && not hit then min n (due rto item) else n) in
      record {
        renumbered = record {
          items = (if hit then renumbered item number else item) ∷ rest.renumbered.items;
          sequence_number = rest.renumbered.sequence_number;
          any = hit || rest.renumbered.any;
        };
        next_retry = rest.next_retry;
      }

  scan-IsAwaited :
      (rto now number n : ℕ) (item : SentPacket H) (items : List (SentPacket H))
      → IsAwaited rto
          (scan rto now items number
            (if item.in_flight && true then min n (due rto item) else n)).next_retry
          item
  unfolding IsAwaited
  scan-IsAwaited rto now number n item items e =
      rw e (omega (arith, scan-earlier rto now number (min n (due rto item)) items))

  -- The scan of a packet that is overdue or not.
  scan_step :
      (hit : Bool) (rto now number n : ℕ) (item : SentPacket H) (items : List (SentPacket H))
      → overdue rto now item ≡ hit
      → ((number' m : ℕ) → IsScanned rto (scan rto now items number' m))
      → IsScanned rto (scan rto now (item ∷ items) number n)
  unfolding scan IsScanned
  scan_step true rto now number n item items e a =
      subst (λ (hit : Bool). IsScanned rto (scan_head hit rto now number n item items)) (sym e)
        (unfold IsScanned in (renumbered-IsAwaited rto _ number item, a _ _))
  scan_step false rto now number n item items e a =
      subst (λ (hit : Bool). IsScanned rto (scan_head hit rto now number n item items)) (sym e)
        (unfold IsScanned in (scan-IsAwaited rto now number n item items, a _ _))

  scan-IsScanned :
      (rto now number n : ℕ) (items : List (SentPacket H))
      → IsScanned rto (scan rto now items number n)
  scan-IsScanned rto now number n [] = unfold IsScanned scan in tt
  scan-IsScanned rto now number n (item ∷ items) =
      scan_step (overdue rto now item) rto now number n item items refl
        (λ number' m. scan-IsScanned rto now number' m items)

  pub tick-IsTimely : (q : SendQ H) (now : ℕ) → IsTimely q → IsTimely (tick q now)
  unfolding tick tick_all IsTimely IsScanned
  tick-IsTimely q now h = elim (Bool-cases (ltb now q.next_retry)) [
    | inl e ↦ rw e h
    | inr e ↦ rw e (scan-IsScanned q.rto now q.sequence_number i64_max q.sent_packet)
  ]
