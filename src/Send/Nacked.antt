-- ===== src/Send/Nacked.antt =====
-- `nack_ranges` of `SendQ` of src/arq.rs: the packets that it marks as lost, and no others.
use rust_raknet.Prelude.{
  ℕ, ◌+◌, ◌≤◌, ◌≡◌, refl, ap, subst, ◌∙◌, inl, inr, Bool, true, false, not, ◌&&◌, ◌||◌, List, [],
  ◌∷◌, ◌==◌, arith, Bool-cases,
}
use rust_raknet.Sequence.Order.{steps}
use rust_raknet.Send.Queue.{SendQ, SentPacket}
use rust_raknet.Send.Nacks.{nack}
use rust_raknet.Send.Tally.{one_if}
use rust_raknet.Send.Marked.{hit, hits, marked, IsMarked, AreMarked, nack_loop-AreMarked, shifted}

not-not : (b : Bool) → not (not b) ≡ b
not-not true = refl
not-not false = refl

module _ {H : Type 0} where
  -- The packets in flight whose numbers pass the test wait to be sent again, under new numbers
  -- from the queue's next one on; the queue notes that there were some. All else is as it was.
  pub record IsNacked (test : ℕ → Bool) (tick : ℕ) (q q' : SendQ H) : Type 0 where
    pub items_lem :
        AreMarked test tick q.sequence_number (hits test q.sent_packet) q.sent_packet q'.sent_packet
    pub number_lem : q'.sequence_number ≡ steps (hits test q.sent_packet) q.sequence_number
    pub rest_lem : q' ≡ (
        let none_hit = hits test q.sent_packet == 0 in
        record q {
          sent_packet = q'.sent_packet;
          sequence_number = q'.sequence_number;
          coalescing_allowed = q.coalescing_allowed && none_hit;
          coalesce = q.coalesce && none_hit;
          flight_order_dirty = q.flight_order_dirty || not none_hit;
          retries_pending = q.retries_pending || not none_hit;
        })

  pub nack-IsNacked :
      (q : SendQ H) (sequence tick : ℕ)
      → IsNacked (λ n. n == sequence) tick q (nack q sequence tick)
  unfolding nack
  nack-IsNacked q sequence tick =
      let (all, last, any) = nack_loop-AreMarked q.sent_packet sequence tick q.sequence_number in
      record {
        items_lem = all;
        number_lem = last;
        rest_lem = rw any (rw (not-not (hits (λ n. n == sequence) q.sent_packet == 0)) refl);
      }

  hit_or_first :
      (s t : ℕ → Bool) (item : SentPacket H) → hit s item ≡ true → hit (λ n. s n || t n) item ≡ true
  hit_or_first s t item h = ground arith

  hit_or_second :
      (s t : ℕ → Bool) (item : SentPacket H)
      → hit s item ≡ false
      → hit (λ n. s n || t n) item ≡ hit t item
  hit_or_second s t item h = ground arith

  -- One loop after another.
  IsMarked-then :
      (s t : ℕ → Bool) (tick base m n : ℕ) (a b c : SentPacket H)
      → IsMarked s tick base m a b
      → IsMarked t tick (steps m base) n b c
      → IsMarked (λ i. s i || t i) tick base (m + n) a c
        × (one_if (hit s a) + one_if (hit t b) ≡ one_if (hit (λ i. s i || t i) a))
  IsMarked-then s t tick base m n a b c (k, le, e) d = elim (Bool-cases (hit s a)) [
    | inl first ↦
        let both = hit_or_first s t a first in
        let is_marked : b ≡ marked a (steps k base) tick = e ∙ rw first refl in
        let below : k + 1 ≤ m = subst (λ x. k + one_if x ≤ m) first le in
        let rested : hit t b ≡ false = ap (λ x. hit t x) is_marked in
        let (j, le', e') = d in
        let same : c ≡ b = e' ∙ rw rested refl in
        ((k, rw both (omega arith), same ∙ is_marked ∙ rw both refl), rw (first, rested, both) refl)
    | inr kept ↦
        let both = hit_or_second s t a kept in
        let same : b ≡ a = e ∙ rw kept refl in
        let (j, le', e') =
          shifted t tick base m n (m + n) a c (omega arith)
            (subst (λ x. IsMarked t tick (steps m base) n x c) same d) in
        ((j, rw both le', e' ∙ rw both refl), rw (kept, both, ap (λ x. hit t x) same) (omega arith))
  ]

  pub AreMarked-then :
      (s t : ℕ → Bool) (tick base m n : ℕ) (first second third : List (SentPacket H))
      → AreMarked s tick base m first second
      → AreMarked t tick (steps m base) n second third
      → AreMarked (λ i. s i || t i) tick base (m + n) first third
        × (hits s first + hits t second ≡ hits (λ i. s i || t i) first)
  AreMarked-then s t tick base m n [] [] [] x y = (tt, omega arith)
  AreMarked-then s t tick base m n [] [] (c ∷ third) x y = absurd y
  AreMarked-then s t tick base m n [] (b ∷ second) third x y = absurd x
  AreMarked-then s t tick base m n (a ∷ first) [] third x y = absurd x
  AreMarked-then s t tick base m n (a ∷ first) (b ∷ second) [] x y = absurd y
  AreMarked-then s t tick base m n (a ∷ first) (b ∷ second) (c ∷ third) (x, xs) (y, ys) =
      let (here, one) = IsMarked-then s t tick base m n a b c x y in
      let (all, more) = AreMarked-then s t tick base m n first second third xs ys in
      ((here, all), omega (arith, one, more))
