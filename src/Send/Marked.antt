-- ===== src/Send/Marked.antt =====
-- What a loop of `nack` of src/arq.rs makes of the packets: which change, and how.
use rust_raknet.Prelude.{
  ℕ, zero, suc, ◌+◌, ◌≤◌, ◌≡◌, refl, ap, subst, ◌∙◌, inl, inr, Bool, false, not, ◌&&◌, List, [],
  ◌∷◌, ◌==◌, if◌then◌else◌, arith, Bool-cases,
}
use rust_raknet.Sequence.{next}
use rust_raknet.Sequence.Order.{steps}
use rust_raknet.Send.Queue.{SentPacket}
use rust_raknet.Send.Nacks.{remember, renumbered, lost, nack_loop}
use rust_raknet.Send.Tally.{one_if}

pub steps_add : (k m n base : ℕ) → n ≡ k + m → steps k (steps m base) ≡ steps n base
steps_add zero m n base e = let same : m ≡ n = omega arith in ap (λ i. steps i base) same
steps_add (suc k) m n base e =
    let same : suc (k + m) ≡ n = omega arith in
    ap next (steps_add k m (k + m) base refl) ∙ ap (λ i. steps i base) same

module _ {H : Type 0} where
  -- A packet in flight whose number passes the test.
  abbrev pub hit : (ℕ → Bool) → SentPacket H → Bool
  hit test item = item.in_flight && test item.frame.sequence_number

  abbrev pub hits : (ℕ → Bool) → List (SentPacket H) → ℕ
  hits test [] = 0
  hits test (item ∷ items) = one_if (hit test item) + hits test items

  -- The packet that waits to be sent again under a new number, and remembers its last one.
  abbrev pub marked : SentPacket H → ℕ → ℕ → SentPacket H
  marked item number tick = record item {
    frame = record item.frame { sequence_number = number };
    in_flight = false;
    time = tick;
    prior = remember item.prior item.frame.sequence_number;
  }

  -- `item'` is `item`, marked under one of `count` numbers from `base` on if it is hit.
  abbrev pub IsMarked : (ℕ → Bool) → ℕ → ℕ → ℕ → SentPacket H → SentPacket H → Type 0
  IsMarked test tick base count item item' =
      (k : ℕ) × (k + one_if (hit test item) ≤ count)
      × (item' ≡ (if hit test item then marked item (steps k base) tick else item))

  -- The same of each packet of two lists, in order.
  abbrev pub AreMarked : (ℕ → Bool) → ℕ → ℕ → ℕ → List (SentPacket H) → List (SentPacket H) → Type 0
  AreMarked test tick base count [] [] = Unit
  AreMarked test tick base count [] (item' ∷ items') = ⊥
  AreMarked test tick base count (item ∷ items) [] = ⊥
  AreMarked test tick base count (item ∷ items) (item' ∷ items') =
      IsMarked test tick base count item item' × AreMarked test tick base count items items'

  pub shifted :
      (test : ℕ → Bool) (tick base m n count : ℕ) (item item' : SentPacket H)
      → m + n ≤ count
      → IsMarked test tick (steps m base) n item item'
      → IsMarked test tick base count item item'
  shifted test tick base m n count item item' h (k, le, e) = elim (Bool-cases (hit test item)) [
    | inl is_hit ↦
        let below : k + 1 ≤ n = subst (λ b. k + one_if b ≤ n) is_hit le in
        (
          k + m,
          rw is_hit (omega arith),
          e ∙ rw is_hit (ap (λ i. marked item i tick) (steps_add k m (k + m) base refl)),
        )
    | inr kept ↦ (0, rw kept (omega arith), e ∙ rw kept refl)
  ]

  AreMarked-shifted :
      (test : ℕ → Bool) (tick base m n count : ℕ) (items items' : List (SentPacket H))
      → m + n ≤ count
      → AreMarked test tick (steps m base) n items items'
      → AreMarked test tick base count items items'
  AreMarked-shifted test tick base m n count [] [] h a = a
  AreMarked-shifted test tick base m n count [] (item' ∷ items') h a = a
  AreMarked-shifted test tick base m n count (item ∷ items) [] h a = a
  AreMarked-shifted test tick base m n count (item ∷ items) (item' ∷ items') h (here, a) = (
    shifted test tick base m n count item item' h here,
    AreMarked-shifted test tick base m n count items items' h a,
  )

  -- A loop of nack marks the packets in flight of one number.
  pub nack_loop-AreMarked :
      (items : List (SentPacket H)) (sequence tick number : ℕ)
      → let r = nack_loop items sequence tick number in
        let test : ℕ → Bool = λ n. n == sequence in
        AreMarked test tick number (hits test items) items r.items
        × (r.sequence_number ≡ steps (hits test items) number)
        × (r.any ≡ not (hits test items == 0))
  unfolding nack_loop renumbered
  nack_loop-AreMarked [] sequence tick number = (tt, refl, ground arith)
  nack_loop-AreMarked (item ∷ items) sequence tick number =
      let test : ℕ → Bool = λ n. n == sequence in
      let h = hits test items in
      let total = hits test (item ∷ items) in
      elim (Bool-cases (lost item sequence)) [
        | inl is_hit ↦
            let (all, last, any) = nack_loop-AreMarked items sequence tick (next number) in
            let more : total ≡ h + 1 = rw is_hit (omega arith) in
            rw is_hit (
              (
                (0, omega arith, refl),
                AreMarked-shifted test tick number 1 h total items _ (omega arith) all,
              ),
              last ∙ steps_add h 1 (1 + h) number (omega arith),
              ground arith,
            )
        | inr kept ↦
            let (all, last, any) = nack_loop-AreMarked items sequence tick number in
            let same : total ≡ h + 0 = rw kept (omega arith) in
            rw kept (
              (
                (0, omega arith, refl),
                AreMarked-shifted test tick number 0 h total items _ (omega arith) all,
              ),
              last ∙ steps_add h 0 (0 + h) number (omega arith),
              ground arith,
            )
      ]
