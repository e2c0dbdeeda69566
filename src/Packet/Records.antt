-- ===== src/Packet/Records.antt =====
-- Ack and Nack packets of src/packet.rs: lists of ranges of sequence numbers.
use rust_raknet.Prelude.{
  ℕ, zero, suc, ◌/◌, Bool, not, List, [], ◌∷◌, length, ltb, ◌==◌, if◌then◌else◌,
}
use rust_raknet.Prelude.State.{M, ◌>>=◌, ◌>>◌, pure, refuse}
use rust_raknet.Error.{Result, ok, err, packet_parse_error}
use rust_raknet.Bytes.{BytesCrate, BufMut, Buf}
use rust_raknet.Datatype.{big, little}
use rust_raknet.Datatype.Writer.{RaknetWriter, from_buffer, write_u8, write_u16, write_u24}
use rust_raknet.Datatype.Reader.{RaknetReader, remaining, read_u8, read_u16, read_u24}
use rust_raknet.Packet.Id.{PacketId, to_u8, nack, ack}
use rust_raknet.Packet.Shared.{reading, writing}

-- `start` and `end`, both included.
abbrev pub Range : Type 0
Range = ℕ × ℕ

pub record Nack : Type 0 where
  pub record_count : ℕ
  pub sequences : List Range

pub record Ack : Type 0 where
  pub record_count : ℕ
  pub sequences : List Range

module _ (buf : Buf) where
  -- The end of a record that starts at `start`.
  unfoldable pub read_end : ℕ → ℕ → M RaknetReader ℕ
  read_end is_single start = if is_single == 1 then pure start else read_u24 buf little

  unfoldable pub read_record : M RaknetReader Range
  unfolding read_end
  read_record = do
    is_single ← read_u8 buf
    refuse (ltb 1 is_single) packet_parse_error
    start ← read_u24 buf little
    end ← read_end is_single start
    refuse (ltb end start) packet_parse_error
    pure (start, end)

  -- `for _ in 0..record_count`
  unfoldable pub read_records : ℕ → M RaknetReader (List Range)
  read_records zero = pure []
  read_records (suc count) = do
    range ← read_record
    ranges ← read_records count
    pure (range ∷ ranges)

  unfoldable pub read_sequence_records : ℕ → M RaknetReader (List Range)
  read_sequence_records record_count = do
    left ← remaining buf
    refuse (ltb (left / 4) record_count) packet_parse_error
    read_records record_count

module _ {B : Type 0} (buf : BufMut B) where
  unfoldable pub write_end : Bool → ℕ → M (RaknetWriter B) (Unit {0})
  write_end single end = if single then pure tt else write_u24 buf end little

  unfoldable pub write_record : Range → M (RaknetWriter B) (Unit {0})
  unfolding write_end
  write_record (start, end) = do
    write_u8 buf (if start == end then 1 else 0)
    write_u24 buf start little
    write_end (start == end) end

  unfoldable pub write_sequence_records : List Range → M (RaknetWriter B) (Unit {0})
  write_sequence_records [] = pure tt
  write_sequence_records (range ∷ ranges) = do write_record range; write_sequence_records ranges

module _ (crate : BytesCrate) where
  -- The writes of a control packet, from its identifier on.
  control : PacketId → ℕ → List Range → M (RaknetWriter (List ℕ)) (Unit {0})
  control kind count sequences = do
    write_u8 crate.vec (to_u8 kind)
    write_u16 crate.vec count big
    write_sequence_records crate.vec sequences

  -- The result, and `output` after the call. Writes to a `Vec` do not fail.
  unfoldable pub write_control_ranges_into :
      PacketId → List Range → List ℕ → Result (Unit {0}) × List ℕ
  unfolding control
  write_control_ranges_into kind sequences output =
      if ltb 65_535 (length sequences)
      then (err packet_parse_error, output)
      else elim (control kind (length sequences) sequences (from_buffer [])) [
        | ok (done, w) ↦ (ok tt, w.buf)
        | err e ↦ (err e, [])
      ]

  unfoldable pub read_packet_nack : List ℕ → Result Nack
  read_packet_nack = reading do
    read_u8 crate.cursor
    record_count ← read_u16 crate.cursor big
    sequences ← read_sequence_records crate.cursor record_count
    pure (record { record_count = record_count; sequences = sequences })

  unfoldable pub write_packet_nack : Nack → Result (List ℕ)
  write_packet_nack packet = writing do
    refuse (not (packet.record_count == length packet.sequences)) packet_parse_error
    write_u8 crate.vec (to_u8 nack)
    write_u16 crate.vec packet.record_count big
    write_sequence_records crate.vec packet.sequences

  -- The body of `read_packet_ack`, on its cursor.
  unfoldable pub read_ack : M RaknetReader Ack
  read_ack = do
    read_u8 crate.cursor
    record_count ← read_u16 crate.cursor big
    sequences ← read_sequence_records crate.cursor record_count
    pure (record { record_count = record_count; sequences = sequences })

  unfoldable pub read_packet_ack : List ℕ → Result Ack
  unfolding read_ack
  read_packet_ack = reading read_ack

  unfoldable pub write_packet_ack : Ack → Result (List ℕ)
  write_packet_ack packet = writing do
    refuse (not (packet.record_count == length packet.sequences)) packet_parse_error
    write_u8 crate.vec (to_u8 ack)
    write_u16 crate.vec packet.record_count big
    write_sequence_records crate.vec packet.sequences
