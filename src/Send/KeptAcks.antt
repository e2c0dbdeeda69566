-- ===== src/Send/KeptAcks.antt =====
-- Properties of the queue through `ack_ranges` and `nack_ranges`.
use rust_raknet.Prelude.{
  ℕ, ◌-◌, refl, inl, inr, Bool, true, not, ◌&&◌, ◌||◌, Option, none, some, List, [], ◌∷◌, length,
  ltb, leb, ◌==◌, if◌then◌else◌, arith, Bool-cases,
}
use rust_raknet.Sequence.{newer}
use rust_raknet.Packet.Records.{Range}
use rust_raknet.Send.TimingLaws.{latency_sample_bounds}
use rust_raknet.Send.Queue.{SendQ, SentPacket}
use rust_raknet.Send.Nacks.{advance}
use rust_raknet.Send.Acks.{
  Retained, take_answered, release, update_rto, settle, ack_found, ack_one, retain_loop, ack_many,
  ack, single, ack_ranges, ack_ranges_with, nack_ranges, nack_ranges_with, missing_in,
}
use rust_raknet.Send.Kept.{
  IsPart, IsShrunk, IsKept, same_timeout, all_part, nack_all-kept, advance-kept,
}
use rust_raknet.Send.RetainLaws.{
  take_answered-IsPart, retain_loop-All, retain_loop-length, retain_loop-IsTimeout,
}

module _ {H : Type 0} (bytes_deref : H → List ℕ) where
  release-IsShrunk :
      (q : SendQ H) (item : SentPacket H) (rest : List (SentPacket H))
      → IsPart rest q.sent_packet
      → IsShrunk q (release bytes_deref q item rest)
  unfolding release
  release-IsShrunk q item rest part = record {
    part = part;
    next_retry = same_timeout q.rto q.next_retry;
    retries_pending = refl;
    buffered_bytes = omega arith;
    rto = λ h. h;
  }

  update_rto-IsShrunk : (q : SendQ H) (rtt : ℕ) → IsShrunk q (update_rto bytes_deref q rtt)
  unfolding update_rto
  update_rto-IsShrunk q rtt = record {
    part = all_part q.sent_packet;
    next_retry = refl;
    retries_pending = refl;
    buffered_bytes = omega arith;
    rto = λ h. latency_sample_bounds q.srtt rtt;
  }

  module _ (I : SendQ H → Type 0) (kept : IsKept I) where
    settle-kept :
        (q : SendQ H) (item : SentPacket H) (sequence time : ℕ)
        → I q
        → I (settle bytes_deref q item sequence time)
    unfolding settle
    settle-kept q item sequence time h =
        let sampled : (q' : SendQ H) → I q' → I (update_rto bytes_deref q' (time - item.time)) =
          λ q' h'. kept.shrunk q' _ (update_rto-IsShrunk q' (time - item.time)) h' in
        let advanced = advance-kept I kept q sequence time h in
        elim (Bool-cases (newer sequence q.ack_sequence_number)) [
          | inl e ↦ elim (Bool-cases (item.retries == 0)) [
            | inl f ↦ rw (e, f) (sampled (advance q sequence time) advanced)
            | inr f ↦ rw (e, f) advanced
          ]
          | inr e ↦ elim (Bool-cases (item.retries == 0)) [
            | inl f ↦ rw (e, f) (sampled q h)
            | inr f ↦ rw (e, f) h
          ]
        ]

    found_kept :
        (q : SendQ H) (sequence time : ℕ) (found : Option (SentPacket H) × List (SentPacket H))
        → IsPart found.1 q.sent_packet
        → I q
        → I (ack_found bytes_deref q sequence time found)
    found_kept q sequence time (none, rest) part h = h
    found_kept q sequence time (some item, rest) part h =
        settle-kept (release bytes_deref q item rest) item sequence time
          (kept.shrunk q _ (release-IsShrunk q item rest part) h)

    ack_one-kept : (q : SendQ H) (sequence time : ℕ) → I q → I (ack_one bytes_deref q sequence time)
    unfolding ack_one
    ack_one-kept q sequence time h =
        found_kept q sequence time (take_answered bytes_deref sequence q.sent_packet)
          (take_answered-IsPart bytes_deref sequence q.sent_packet) h

    ack_many-kept :
        (q : SendQ H) (grouped : Bool) (ranges : List Range) (time : ℕ)
        → I q
        → I (ack_many bytes_deref q grouped ranges time)
    unfolding ack_many
    ack_many-kept q grouped ranges time h =
        let start : Retained H = record {
          items = [];
          shared = q.shared;
          released_bytes = 0;
          newest = q.ack_sequence_number;
          latency = (q.srtt, q.rto);
          previous_sample = none;
        } in
        let r = retain_loop bytes_deref grouped ranges time q.sent_packet start in
        let q' : SendQ H = record q {
          sent_packet = r.items;
          shared = r.shared;
          buffered_bytes = q.buffered_bytes - r.released_bytes;
          grouped_acks =
              if grouped then q.grouped_acks && not (length r.items == 0) else q.grouped_acks;
          srtt = r.latency.0;
          rto = r.latency.1;
          next_retry = if r.latency.1 == q.rto then q.next_retry else 0;
        } in
        let h' : I q' =
          kept.shrunk q q'
            (record {
              part = record {
                keeps = λ P a.
                    retain_loop-All bytes_deref P grouped ranges time q.sent_packet start a tt;
                shorter =
                    omega (
                      arith,
                      retain_loop-length bytes_deref grouped ranges time q.sent_packet start,
                    );
              };
              next_retry = refl;
              retries_pending = refl;
              buffered_bytes = omega arith;
              rto = retain_loop-IsTimeout bytes_deref grouped ranges time q.sent_packet start;
            })
            h in
        elim (Bool-cases (r.newest == q.ack_sequence_number)) [
          | inl e ↦ rw e h'
          | inr e ↦ rw e (advance-kept I kept q' r.newest time h')
        ]

    ack-kept : (q : SendQ H) (sequence time : ℕ) → I q → I (ack bytes_deref q sequence time)
    unfolding ack
    ack-kept q sequence time h =
        elim (Bool-cases (q.grouped_acks && ltb 1 (length q.sent_packet))) [
          | inl e ↦ rw e (ack_many-kept q true ((sequence, sequence) ∷ []) time h)
          | inr e ↦ rw e (ack_one-kept q sequence time h)
        ]

    ranges_kept :
        (q : SendQ H) (ranges : List Range) (time : ℕ) (only : Option ℕ)
        → I q
        → I (ack_ranges_with bytes_deref q ranges time only)
    ranges_kept q ranges time none h = ack_many-kept q q.grouped_acks ranges time h
    ranges_kept q ranges time (some start) h =
        elim (Bool-cases (not q.grouped_acks || leb (length q.sent_packet) 1)) [
          | inl e ↦ rw e (ack-kept q start time h)
          | inr e ↦ rw e (ack_many-kept q q.grouped_acks ranges time h)
        ]

    pub ack_ranges-kept :
        (q : SendQ H) (ranges : List Range) (time : ℕ)
        → I q
        → I (ack_ranges bytes_deref q ranges time)
    unfolding ack_ranges
    ack_ranges-kept q ranges time h = ranges_kept q ranges time (single bytes_deref ranges) h

    nack_with_kept :
        (q : SendQ H) (ranges : List Range) (time : ℕ) (only : Option ℕ)
        → I q
        → I (nack_ranges_with bytes_deref q ranges time only)
    nack_with_kept q ranges time none h =
        nack_all-kept I kept q (missing_in bytes_deref ranges q.sent_packet) time h
    nack_with_kept q ranges time (some start) h = kept.nacked q start time h

    pub nack_ranges-kept :
        (q : SendQ H) (ranges : List Range) (time : ℕ)
        → I q
        → I (nack_ranges bytes_deref q ranges time)
    unfolding nack_ranges
    nack_ranges-kept q ranges time h = nack_with_kept q ranges time (single bytes_deref ranges) h
