-- ===== src/Send/InsertLaws.antt =====
-- On what `insert_payload` leaves as it was.
use rust_raknet.Prelude.{
  ℕ, zero, suc, ◌+◌, ◌≡◌, refl, ap, inl, inr, Bool, Option, List, length, subst, ltb, Bool-cases,
}
use rust_raknet.Error.{Result, ok, err, ◌>>=◌, refuse, packet_size_exceed_mtu}
use rust_raknet.Frame.Reliability.{
  Reliability, unreliable, unreliable_sequenced, reliable, reliable_ordered, reliable_sequenced,
}
use rust_raknet.Frame.Packet.{FrameSetPacket}
use rust_raknet.Send.Queue.{SendQ, SentPacket, div_ceil, max_payload, required_bytes}
use rust_raknet.Send.Insert.{
  too_long, fragment_loop, insert_fragments, insert_as, next_ordered, next_sequenced, reserve,
  push_reliable, insert_payload,
}

-- What a result that is a success satisfies.
abbrev pub WhenOk : {A : Type 0} → (A → Type 0) → Result A → Type 0
WhenOk P (ok a) = P a
WhenOk P (err e) = Unit {0}

pub WhenOk-bind :
    {A B : Type 0} (P : B → Type 0) (m : Result A) (f : A → Result B)
    → ((a : A) → WhenOk P (f a))
    → WhenOk P (m >>= f)
WhenOk-bind P (ok a) f h = h a
WhenOk-bind P (err e) f h = tt

pub WhenOk-ok : {A : Type 0} (P : A → Type 0) (m : Result A) (a : A) → m ≡ ok a → WhenOk P m → P a
WhenOk-ok P m a e h = subst (WhenOk P) e h

module _ {H : Type 0} where
  -- The packets in flight and the clock of their retransmission.
  abbrev pub sent_state : SendQ H → List (SentPacket H) × ℕ × ℕ × Bool
  sent_state q = (q.sent_packet, q.rto, q.next_retry, q.retries_pending)

  -- The same, with the bytes that are accounted for.
  abbrev pub kept_state : SendQ H → (List (SentPacket H) × ℕ × ℕ × Bool) × ℕ
  kept_state q = (sent_state q, q.buffered_bytes)

module _ {H : Type 0} (bytes_deref : H → List ℕ) (bytes_slice : H → ℕ → ℕ → H) where
  fragment_loop-kept_state :
      (left index : ℕ) (part : ℕ → FrameSetPacket H) (q : SendQ H)
      → kept_state (fragment_loop bytes_deref bytes_slice left index part q) ≡ kept_state q
  unfolding fragment_loop
  fragment_loop-kept_state zero index part q = refl
  fragment_loop-kept_state (suc left) index part q =
      fragment_loop-kept_state left (index + 1) part
        (push_reliable bytes_deref bytes_slice q (part index))

  insert_fragments-kept_state :
      (q : SendQ H) (buf : List ℕ) (data' : Option H) (channel size : ℕ)
      → kept_state (insert_fragments bytes_deref bytes_slice q buf data' channel size)
        ≡ kept_state q
  unfolding insert_fragments
  insert_fragments-kept_state q buf data' channel size =
      fragment_loop-kept_state (div_ceil (length buf) size) 0 _ _

  pub insert_as-kept_state :
      (r : Reliability) (q : SendQ H) (buf : List ℕ) (data' : Option H) (channel size : ℕ)
      → kept_state (insert_as bytes_deref bytes_slice r q buf data' channel size) ≡ kept_state q
  unfolding insert_as next_ordered next_sequenced
  insert_as-kept_state unreliable q buf data' channel size = refl
  insert_as-kept_state unreliable_sequenced q buf data' channel size = refl
  insert_as-kept_state reliable q buf data' channel size = refl
  insert_as-kept_state reliable_ordered q buf data' channel size =
      elim (Bool-cases (ltb size (length buf))) [
        | inl e ↦ rw e (insert_fragments-kept_state q buf data' channel size)
        | inr e ↦ rw e refl
      ]
  insert_as-kept_state reliable_sequenced q buf data' channel size = refl

  pub insert_payload-sent_state :
      (q : SendQ H) (r : Reliability) (buf : List ℕ) (channel : ℕ) (data' : Option H)
      → WhenOk
          (λ (q' : SendQ H). sent_state q' ≡ sent_state q)
          (insert_payload bytes_deref bytes_slice q r buf channel data')
  unfolding insert_payload reserve
  insert_payload-sent_state q r buf channel data' =
      let P = λ (q' : SendQ H). sent_state q' ≡ sent_state q in
      WhenOk-bind P (required_bytes q r (length buf)) _ λ reserved.
        WhenOk-bind P (refuse _ packet_size_exceed_mtu) _ λ _.
          WhenOk-bind P (max_payload q) _ λ size.
            WhenOk-bind P
              (refuse (too_long bytes_deref bytes_slice r (length buf) size) packet_size_exceed_mtu)
              (λ _. ok (
                reserve bytes_deref bytes_slice r reserved
                  (insert_as bytes_deref bytes_slice r q buf data' channel size)))
              λ _. ap (λ t. t.0) (insert_as-kept_state r q buf data' channel size)
