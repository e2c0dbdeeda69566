-- ===== src/Send/Pending.antt =====
-- On `retries_pending` and the packets that wait to be sent again.
use rust_raknet.Prelude.{
  ℕ, ◌≡◌, refl, sym, inl, inr, Bool, true, false, not, ◌&&◌, ◌||◌, List, [], ◌∷◌, min, All, subst,
  ltb, if◌then◌else◌, Bool-cases,
}
use rust_raknet.Sequence.{next}
use rust_raknet.Send.Timing.{i64_max}
use rust_raknet.Send.Queue.{SendQ, SentPacket}
use rust_raknet.Send.Nacks.{lost, nack_loop, nack}
use rust_raknet.Send.Kept.{IsShrunk, IsKept}
use rust_raknet.Send.Tick.{overdue, due, scan, tick, tick_all}
use rust_raknet.Send.Flush.{sort_flight}
use rust_raknet.Send.Awaited.{sorted-All}

or_true : (pending : Bool) → (pending || true) ≡ true
or_true true = refl
or_true false = refl

module _ {H : Type 0} where
  unfoldable pub IsAnnounced : Bool → SentPacket H → Type 0
  IsAnnounced pending item = item.in_flight ≡ false → pending ≡ true

  unfoldable pub IsPending : SendQ H → Type 0
  IsPending q = All (IsAnnounced q.retries_pending) q.sent_packet

  raised :
      (pending pending' : Bool) (items : List (SentPacket H))
      → (pending ≡ true → pending' ≡ true)
      → All (IsAnnounced pending) items
      → All (IsAnnounced pending') items
  unfolding IsAnnounced
  raised pending pending' [] up a = tt
  raised pending pending' (item ∷ items) up (here, a) =
      (λ e. up (here e), raised pending pending' items up a)

  -- A packet that a loop renumbers, or leaves as it is, in front of those that it has seen to.
  IsAnnounced-cons :
      (hit pending any : Bool) (item item' : SentPacket H) (items : List (SentPacket H))
      → IsAnnounced pending item
      → All (IsAnnounced (pending || any)) items
      → All (IsAnnounced (pending || (hit || any))) ((if hit then item' else item) ∷ items)
  unfolding IsAnnounced
  IsAnnounced-cons true pending any item item' items here a = (
    λ e. or_true pending,
    raised (pending || any) (pending || true) items (λ e. or_true pending) a,
  )
  IsAnnounced-cons false true any item item' items here a = (λ e. refl, a)
  IsAnnounced-cons false false any item item' items here a =
      (λ e. let f : false ≡ true = here e in cc, a)

  nack_loop-IsAnnounced :
      (pending : Bool) (sequence time number : ℕ) (items : List (SentPacket H))
      → All (IsAnnounced pending) items
      → All
          (IsAnnounced (pending || (nack_loop items sequence time number).any))
          (nack_loop items sequence time number).items
  unfolding nack_loop
  nack_loop-IsAnnounced pending sequence time number [] a = tt
  nack_loop-IsAnnounced pending sequence time number (item ∷ items) (here, a) =
      let hit = lost item sequence in
      let number' : ℕ = if hit then next number else number in
      IsAnnounced-cons hit pending (nack_loop items sequence time number').any item _ _ here
        (nack_loop-IsAnnounced pending sequence time number' items a)

  pub nack-IsPending :
      (q : SendQ H) (sequence time : ℕ) → IsPending q → IsPending (nack q sequence time)
  unfolding nack IsPending
  nack-IsPending q sequence time h =
      nack_loop-IsAnnounced q.retries_pending sequence time q.sequence_number q.sent_packet h

  shrunk-IsPending : (q q' : SendQ H) → IsShrunk q q' → IsPending q → IsPending q'
  unfolding IsPending
  shrunk-IsPending q q' shrunk h =
      subst (λ b. All (IsAnnounced b) q'.sent_packet) (sym shrunk.retries_pending)
        (shrunk.part.keeps _ h)

  pub IsPending-IsKept : IsKept IsPending
  IsPending-IsKept = record { shrunk = shrunk-IsPending; nacked = nack-IsPending }

  scan-IsAnnounced :
      (pending : Bool) (rto now number n : ℕ) (items : List (SentPacket H))
      → All (IsAnnounced pending) items
      → All
          (IsAnnounced (pending || (scan rto now items number n).renumbered.any))
          (scan rto now items number n).renumbered.items
  unfolding scan
  scan-IsAnnounced pending rto now number n [] a = tt
  scan-IsAnnounced pending rto now number n (item ∷ items) (here, a) =
      let hit = overdue rto now item in
      let number' : ℕ = if hit then next number else number in
      let n' : ℕ = if item.in_flight && not hit then min n (due rto item) else n in
      IsAnnounced-cons hit pending (scan rto now items number' n').renumbered.any item _ _ here
        (scan-IsAnnounced pending rto now number' n' items a)

  pub tick-IsPending : (q : SendQ H) (now : ℕ) → IsPending q → IsPending (tick q now)
  unfolding tick tick_all IsPending
  tick-IsPending q now h = elim (Bool-cases (ltb now q.next_retry)) [
    | inl e ↦ rw e h
    | inr e ↦
        rw e
          (scan-IsAnnounced q.retries_pending q.rto now q.sequence_number i64_max q.sent_packet h)
  ]

  pub sort_flight-IsPending : (q : SendQ H) → IsPending q → IsPending (sort_flight q)
  unfolding sort_flight IsPending
  sort_flight-IsPending q h = elim (Bool-cases q.flight_order_dirty) [
    | inl e ↦ rw e (sorted-All (IsAnnounced q.retries_pending) q.sent_packet h)
    | inr e ↦ rw e h
  ]
