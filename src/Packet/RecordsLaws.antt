-- ===== src/Packet/RecordsLaws.antt =====
-- What `write_packet_ack` of src/packet.rs writes, and what `read_packet_ack` makes of it.
use rust_raknet.Prelude.{
  ℕ, ◌*◌, ◌^◌, ◌≤◌, ◌<◌, ◌≡◌, refl, sym, subst, inl, inr, List, [], ◌∷◌, ◌++◌, length, All, ◌==◌,
  if◌then◌else◌, Bool-cases, ==_iff, arith,
}
use rust_raknet.Error.{ok, packet_parse_error, and_then}
use rust_raknet.Bytes.{BytesCrate, Buf, BufLaws, BufMut, BufMutLaws}
use rust_raknet.Bytes.Words.{to_le, sizes}
use rust_raknet.Datatype.Reads.{Reads, Reads-bind, Reads-last, Reads-pure, Reads-refuse}
use rust_raknet.Datatype.ReadLaws.{read_u8-Reads, read_u16-Reads, read_u24-Reads, Reads-remaining}
use rust_raknet.Datatype.Writes.{
  Writes, Writes-bind, Writes-last, Writes-pure, Writes-refuse, write_u8-Writes, write_u16-Writes,
  write_u24-Writes,
}
use rust_raknet.Packet.Id.{to_u8}
use rust_raknet.Packet.Shared.{read_back}
use rust_raknet.Packet.Records.{
  Range, Ack, read_end, read_record, read_records, read_sequence_records, write_end, write_record,
  write_sequence_records, read_packet_ack, write_packet_ack,
}

-- A range of 24-bit sequence numbers.
abbrev pub IsRange : Range → Type 0
IsRange (start, end) = (start ≤ end) × (end < 2 ^ 24)

abbrev record_bytes : Range → List ℕ
record_bytes (start, end) =
    if start == end then (1 ∷ []) ++ to_le 3 start else (0 ∷ []) ++ (to_le 3 start ++ to_le 3 end)

abbrev records_bytes : List Range → List ℕ
records_bytes [] = []
records_bytes (r ∷ rs) = record_bytes r ++ records_bytes rs

length-record_bytes : (r : Range) → (4 ≤ length (record_bytes r)) × (length (record_bytes r) ≤ 7)
length-record_bytes (start, end) = elim (Bool-cases (start == end)) [
  | inl e ↦ rw e (omega sizes, omega sizes)
  | inr e ↦ rw e (omega sizes, omega sizes)
]

length-records_bytes :
    (rs : List Range)
    → (4 * length rs ≤ length (records_bytes rs)) × (length (records_bytes rs) ≤ 7 * length rs)
length-records_bytes [] = omega arith
length-records_bytes (r ∷ rs) = omega (sizes, length-record_bytes r, length-records_bytes rs)

module _ {buf : Buf} (laws : BufLaws buf) where
  read_single-Reads :
      (start : ℕ)
      → start < 2 ^ 24
      → Reads (read_record buf) ((1 ∷ []) ++ to_le 3 start) (start, start)
  unfolding read_record read_end
  read_single-Reads start h = Reads-bind _ (read_u8-Reads laws 1) (
      Reads-refuse packet_parse_error refl (
        Reads-last _ (read_u24-Reads laws start h) (
          Reads-last _ (Reads-pure start)
            (Reads-refuse packet_parse_error (ground arith) (Reads-pure _)))))

  read_pair-Reads :
      (start end : ℕ)
      → IsRange (start, end)
      → Reads (read_record buf) ((0 ∷ []) ++ (to_le 3 start ++ to_le 3 end)) (start, end)
  unfolding read_record read_end
  read_pair-Reads start end h = Reads-bind _ (read_u8-Reads laws 0) (
      Reads-refuse packet_parse_error refl (
        Reads-bind _ (read_u24-Reads laws start (omega arith)) (
          Reads-last _ (read_u24-Reads laws end (omega arith))
            (Reads-refuse packet_parse_error (ground arith) (Reads-pure _)))))

  read_record-Reads : (r : Range) → IsRange r → Reads (read_record buf) (record_bytes r) r
  read_record-Reads (start, end) h = elim (Bool-cases (start == end)) [
    | inl e ↦ rw e (
        subst (λ v. Reads {A = Range} (read_record buf) ((1 ∷ []) ++ to_le 3 start) (start, v))
          ((==_iff start end).0 e) (read_single-Reads start (omega arith)))
    | inr e ↦ rw e (read_pair-Reads start end h)
  ]

  read_records-Reads :
      (rs : List Range)
      → All IsRange rs
      → Reads (read_records buf (length rs)) (records_bytes rs) rs
  unfolding read_records
  read_records-Reads [] h = Reads-pure []
  read_records-Reads (r ∷ rs) h =
      Reads-bind _ (read_record-Reads r h.0)
        (Reads-last _ (read_records-Reads rs h.1) (Reads-pure (r ∷ rs)))

  pub read_sequence_records-Reads :
      (rs : List Range)
      → All IsRange rs
      → Reads (read_sequence_records buf (length rs)) (records_bytes rs) rs
  unfolding read_sequence_records
  read_sequence_records-Reads rs h = Reads-remaining laws _ λ left more.
      Reads-refuse packet_parse_error (ground (arith, length-records_bytes rs))
        (read_records-Reads rs h)

module _ {B : Type 0} {buf : BufMut B} {written : B → List ℕ} (laws : BufMutLaws buf written) where
  write_record-Writes : (r : Range) → Writes buf written (write_record buf r) (record_bytes r) tt
  unfolding write_record write_end
  write_record-Writes (start, end) = elim (Bool-cases (start == end)) [
    | inl e ↦ rw e (
        Writes-bind _ (write_u8-Writes laws 1 (omega arith))
          (Writes-last _ (write_u24-Writes laws start) (Writes-pure tt)))
    | inr e ↦ rw e (
        Writes-bind _ (write_u8-Writes laws 0 (omega arith))
          (Writes-bind _ (write_u24-Writes laws start) (write_u24-Writes laws end)))
  ]

  pub write_sequence_records-Writes :
      (rs : List Range) → Writes buf written (write_sequence_records buf rs) (records_bytes rs) tt
  unfolding write_sequence_records
  write_sequence_records-Writes [] = Writes-pure tt
  write_sequence_records-Writes (r ∷ rs) =
      Writes-bind _ (write_record-Writes r) (write_sequence_records-Writes rs)

module _ (crate : BytesCrate) where
  -- An ack of 24-bit ranges, each in order, as many as it announces and fewer than 65536, is read
  -- back as it was written.
  pub read_packet_ack-write :
      (p : Ack)
      → p.record_count ≡ length p.sequences
      → p.record_count < 2 ^ 16
      → All IsRange p.sequences
      → and_then (write_packet_ack crate p) (read_packet_ack crate) ≡ ok p
  unfolding read_packet_ack write_packet_ack to_u8
  read_packet_ack-write p same small h =
      read_back crate
        (Writes-refuse packet_parse_error (ground arith) (
          Writes-bind _ (write_u8-Writes crate.vec_laws 0xc0 (omega arith)) (
            Writes-bind _ (write_u16-Writes crate.vec_laws p.record_count)
              (write_sequence_records-Writes crate.vec_laws p.sequences))))
        (Reads-bind _ (read_u8-Reads crate.cursor_laws 0xc0) (
          Reads-bind _ (read_u16-Reads crate.cursor_laws p.record_count small) (
            Reads-last _
              (subst
                (λ n.
                  Reads (read_sequence_records crate.cursor n) (records_bytes p.sequences)
                    p.sequences)
                (sym same) (read_sequence_records-Reads crate.cursor_laws p.sequences h))
              (Reads-pure p))))
        (omega (sizes, length-records_bytes p.sequences))
