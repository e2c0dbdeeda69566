-- ===== src/Send/RetainLaws.antt =====
-- On the loops of acknowledgements over the packets in flight.
use rust_raknet.Prelude.{
  ℕ, ◌+◌, ◌-◌, ◌≤◌, ◌≡◌, refl, inl, inr, Bool, not, ◌&&◌, ◌||◌, Option, none, some, List, [], ◌∷◌,
  ◌++◌, length, All, All-append, ◌==◌, arith, Bool-cases,
}
use rust_raknet.Packet.Records.{Range}
use rust_raknet.Send.TimingLaws.{IsTimeout, latency_sample_bounds}
use rust_raknet.Send.Queue.{SentPacket}
use rust_raknet.Send.Acks.{
  Retained, take_answered, answers, acknowledged_id, retire, retain_step, retain_loop, is_sample,
}
use rust_raknet.Send.Kept.{IsPart, all_part}

module _ {H : Type 0} (bytes_deref : H → List ℕ) where
  pub take_answered-IsPart :
      (sequence : ℕ) (items : List (SentPacket H))
      → IsPart (take_answered bytes_deref sequence items).1 items
  unfolding take_answered
  take_answered-IsPart sequence [] = all_part []
  take_answered-IsPart sequence (item ∷ items) =
      let rest = take_answered-IsPart sequence items in
      elim (Bool-cases (answers bytes_deref sequence item)) [
        | inl e ↦ rw e (record { keeps = λ P a. a.1; shorter = omega arith })
        | inr e ↦ rw e (record {
          keeps = λ P a. (a.0, rest.keeps P a.1);
          shorter = omega (arith, rest.shorter);
        })
      ]

  retain_step-All :
      (P : SentPacket H → Type 0) (grouped : Bool) (time : ℕ) (item : SentPacket H) (id : Option ℕ)
      (r : Retained H)
      → P item
      → All P r.items
      → All P (retain_step bytes_deref grouped time item id r).items
  unfolding retire
  retain_step-All P grouped time item none r here a = All-append P r.items _ a (here, tt)
  retain_step-All P grouped time item (some id) r here a = a

  pub retain_loop-All :
      (P : SentPacket H → Type 0) (grouped : Bool) (ranges : List Range) (time : ℕ)
      (items : List (SentPacket H)) (r : Retained H)
      → All P items
      → All P r.items
      → All P (retain_loop bytes_deref grouped ranges time items r).items
  unfolding retain_loop
  retain_loop-All P grouped ranges time [] r a kept = kept
  retain_loop-All P grouped ranges time (item ∷ items) r (here, a) kept =
      let id = acknowledged_id bytes_deref ranges item in
      retain_loop-All P grouped ranges time items (retain_step bytes_deref grouped time item id r) a
        (retain_step-All P grouped time item id r here kept)

  length-append_one :
      (items : List (SentPacket H)) (item : SentPacket H)
      → length (items ++ item ∷ []) ≡ length items + 1
  length-append_one [] item = refl
  length-append_one (other ∷ items) item = omega (arith, length-append_one items item)

  retain_step-length :
      (grouped : Bool) (time : ℕ) (item : SentPacket H) (id : Option ℕ) (r : Retained H)
      → length (retain_step bytes_deref grouped time item id r).items ≤ length r.items + 1
  unfolding retire
  retain_step-length grouped time item none r = omega (arith, length-append_one r.items item)
  retain_step-length grouped time item (some id) r = omega arith

  pub retain_loop-length :
      (grouped : Bool) (ranges : List Range) (time : ℕ) (items : List (SentPacket H))
      (r : Retained H)
      → length (retain_loop bytes_deref grouped ranges time items r).items
        ≤ length r.items + length items
  unfolding retain_loop
  retain_loop-length grouped ranges time [] r = omega arith
  retain_loop-length grouped ranges time (item ∷ items) r =
      let id = acknowledged_id bytes_deref ranges item in
      omega (
        arith,
        retain_loop-length grouped ranges time items
            (retain_step bytes_deref grouped time item id r),
        retain_step-length grouped time item id r,
      )

  -- Samples leave a timeout in its bounds.
  retire-IsTimeout :
      (grouped : Bool) (time : ℕ) (item : SentPacket H) (id : ℕ) (r : Retained H)
      → IsTimeout r.latency.1
      → IsTimeout (retire bytes_deref grouped time item id r).latency.1
  unfolding retire
  retire-IsTimeout grouped time item id r h =
      elim (Bool-cases (
        (item.retries == 0) && (not grouped || not (is_sample bytes_deref r.previous_sample id)))) [
          | inl e ↦ rw e (latency_sample_bounds r.latency.0 (time - item.time))
          | inr e ↦ rw e h
        ]

  retain_step-IsTimeout :
      (grouped : Bool) (time : ℕ) (item : SentPacket H) (id : Option ℕ) (r : Retained H)
      → IsTimeout r.latency.1
      → IsTimeout (retain_step bytes_deref grouped time item id r).latency.1
  retain_step-IsTimeout grouped time item none r h = h
  retain_step-IsTimeout grouped time item (some id) r h = retire-IsTimeout grouped time item id r h

  pub retain_loop-IsTimeout :
      (grouped : Bool) (ranges : List Range) (time : ℕ) (items : List (SentPacket H))
      (r : Retained H)
      → IsTimeout r.latency.1
      → IsTimeout (retain_loop bytes_deref grouped ranges time items r).latency.1
  unfolding retain_loop
  retain_loop-IsTimeout grouped ranges time [] r h = h
  retain_loop-IsTimeout grouped ranges time (item ∷ items) r h =
      let id = acknowledged_id bytes_deref ranges item in
      retain_loop-IsTimeout grouped ranges time items
        (retain_step bytes_deref grouped time item id r)
        (retain_step-IsTimeout grouped time item id r h)
