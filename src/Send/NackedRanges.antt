-- ===== src/Send/NackedRanges.antt =====
-- `nack_ranges` of `SendQ` of src/arq.rs: it marks the packets that lie in the ranges.
use rust_raknet.Prelude.{
  ℕ, ◌≡◌, refl, subst, ◌∙◌, inl, inr, true, false, ◌&&◌, Option, none, some, List, [], ◌∷◌, ◌==◌,
  if◌then◌else◌, arith, Bool-cases, ==_iff,
}
use rust_raknet.Prelude.Sets.{contains}
use rust_raknet.Packet.Records.{Range}
use rust_raknet.Send.Queue.{SendQ, SentPacket}
use rust_raknet.Send.Nacks.{nack, nack_all}
use rust_raknet.Send.Acks.{in_ranges, single, missing_in, nack_ranges, nack_ranges_with}
use rust_raknet.Send.Nacked.{IsNacked, nack-IsNacked}
use rust_raknet.Send.NackedTwice.{present, IsNacked-congruence, nack_all-IsNacked}

module _ {H : Type 0} (bytes_deref : H → List ℕ) where
  contains-missing_in :
      (ranges : List Range) (items : List (SentPacket H)) (n : ℕ)
      → contains (missing_in bytes_deref ranges items) n
        ≡ (in_ranges bytes_deref ranges n && present items n)
  unfolding missing_in contains
  contains-missing_in ranges [] n = ground arith
  contains-missing_in ranges (item ∷ items) n =
      let rest = contains-missing_in ranges items n in
      elim (Bool-cases (item.frame.sequence_number == n)) [
        | inl e ↦
            let number = (==_iff item.frame.sequence_number n).0 e in
            elim (Bool-cases (in_ranges bytes_deref ranges item.frame.sequence_number)) [
              | inl i ↦
                  let also = subst (λ m. in_ranges bytes_deref ranges m ≡ true) number i in
                  rw (i, e, also) refl
              | inr i ↦
                  let also = subst (λ m. in_ranges bytes_deref ranges m ≡ false) number i in
                  rw (i, also) (rest ∙ rw also refl)
            ]
        | inr e ↦ elim (Bool-cases (in_ranges bytes_deref ranges item.frame.sequence_number)) [
          | inl i ↦ rw (i, e) rest
          | inr i ↦ rw (i, e) rest
        ]
      ]

  single_range :
      (ranges : List Range) (start n : ℕ)
      → single bytes_deref ranges ≡ some start
      → (n == start) ≡ in_ranges bytes_deref ranges n
  single_range [] start n h = ground arith
  single_range ((first, last) ∷ []) start n h = elim (Bool-cases (first == last)) [
    | inl e ↦
        let found : some first ≡ some start =
          subst (λ b. (if b then some first else none) ≡ some start) e h in
        let same : first ≡ start = cc in ground arith
    | inr e ↦ ground arith
  ]
  single_range (range ∷ other ∷ ranges) start n h = ground arith

  nack_ranges_with-IsNacked :
      (q : SendQ H) (ranges : List Range) (tick : ℕ) (only : Option ℕ)
      → single bytes_deref ranges ≡ only
      → IsNacked
          (in_ranges bytes_deref ranges)
          tick
          q
          (nack_ranges_with bytes_deref q ranges tick only)
  nack_ranges_with-IsNacked q ranges tick none h =
      let ids = missing_in bytes_deref ranges q.sent_packet in
      IsNacked-congruence (contains ids) (in_ranges bytes_deref ranges) tick q (nack_all q ids tick)
        (λ n p. contains-missing_in ranges q.sent_packet n ∙ ground arith)
        (nack_all-IsNacked ids q tick)
  nack_ranges_with-IsNacked q ranges tick (some start) h =
      IsNacked-congruence (λ n. n == start) (in_ranges bytes_deref ranges) tick q
        (nack q start tick) (λ n p. single_range ranges start n h) (nack-IsNacked q start tick)

  -- nack_ranges marks exactly the packets in flight whose numbers lie in the ranges, in whatever
  -- way it goes through them: each keeps its frame and its count of retries, is no longer in
  -- flight, has the time of the call, remembers the number that it had, and gets one of the next
  -- numbers of the queue, from which the queue moves on by as many as it marks. Pending retries, a
  -- dirty order and the end of coalescing are noted if some packet is marked. Every other packet
  -- and everything else of the queue is as it was.
  pub nack_ranges-IsNacked :
      (q : SendQ H) (ranges : List Range) (tick : ℕ)
      → IsNacked (in_ranges bytes_deref ranges) tick q (nack_ranges bytes_deref q ranges tick)
  unfolding nack_ranges
  nack_ranges-IsNacked q ranges tick =
      nack_ranges_with-IsNacked q ranges tick (single bytes_deref ranges) refl
