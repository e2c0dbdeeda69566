-- ===== src/Frame/Decode.antt =====
-- `FrameVec::decode`, `decode_into` and `decode_owned_into` of src/arq.rs.
use rust_raknet.Prelude.{
  ℕ, zero, suc, ◌-◌, ◌/◌, ◌%◌, Bool, true, false, not, ◌&&◌, ◌||◌, none, List, [], ◌∷◌, length,
  take, drop, ltb, leb, ◌==◌, if◌then◌else◌,
}
use rust_raknet.Prelude.State.{M, ◌>>=◌, ◌>>◌, pure, refuse, lift}
use rust_raknet.Error.{
  Result, ok, err, and_then, packet_header_error, packet_parse_error, read_packet_buffer_error,
}
use rust_raknet.Bytes.{Buf}
use rust_raknet.Datatype.{big, little}
use rust_raknet.Datatype.Reader.{
  RaknetReader, new, read_u8, read_u16, read_u24, read_u32, read_slice,
}
use rust_raknet.Frame.Reliability.{
  reliability_of, fragment_bit, has_reliable_index, has_sequenced_index, has_ordered_index,
}
use rust_raknet.Frame.Packet.{FrameSetPacket, FramePayload, owned}

-- A field that is there under a test, and 0 otherwise.
abbrev pub optional : {S A : Type 0} → Bool → M S A → A → M S A
optional true m default = m
optional false m default = pure default

module _ (buf : Buf) where
  unfoldable pub ordered_fields : M RaknetReader (ℕ × ℕ)
  ordered_fields = do index ← read_u24 buf little; channel ← read_u8 buf; pure (index, channel)

  unfoldable pub fragment_fields : M RaknetReader (ℕ × ℕ × ℕ)
  fragment_fields = do
    compound_size ← read_u32 buf big
    compound_id ← read_u16 buf big
    fragment_index ← read_u32 buf big
    refuse (compound_size == 0 || leb compound_size fragment_index) packet_parse_error
    pure (compound_size, compound_id, fragment_index)

  -- The datagram's identifier and sequence number, and that something follows.
  unfoldable pub decode_start : M RaknetReader ℕ
  decode_start = do
    id ← read_u8 buf
    refuse (not (leb 0x80 id && leb id 0x8d)) packet_header_error
    sequence_number ← read_u24 buf little
    (λ r. refuse (r.buf.position == length r.buf.inner) packet_parse_error r)
    pure sequence_number

  module _ {H : Type 0} where
    -- A frame whose payload is left out where `decode_owned_into` moves the datagram into it.
    unfoldable pub keep_payload : Bool → List ℕ → FramePayload H
    keep_payload kept data' = if kept then owned data' else owned []

    -- One round of the loop. `single` is `owned && frames.is_empty()`.
    unfoldable pub decode_frame : Bool → ℕ → M RaknetReader (FrameSetPacket H)
    unfolding ordered_fields fragment_fields keep_payload
    decode_frame single sequence_number = do
      flags ← read_u8 buf
      length_in_bits ← read_u16 buf big
      refuse (not (length_in_bits % 8 == 0)) packet_parse_error
      reliability ← lift (reliability_of flags)
      reliable ← optional (has_reliable_index reliability) (read_u24 buf little) 0
      sequenced ← optional (has_sequenced_index reliability) (read_u24 buf little) 0
      ordered ← optional (has_ordered_index reliability) ordered_fields (0, 0)
      fragment ← optional (fragment_bit flags) fragment_fields (0, 0, 0)
      data' ← read_slice (length_in_bits / 8)
      (λ r. ok (
        record {
          sequence_number = sequence_number;
          flags = flags;
          length_in_bytes = length_in_bits / 8;
          reliable_frame_index = reliable;
          sequenced_frame_index = sequenced;
          ordered_frame_index = ordered.0;
          order_channel = ordered.1;
          compound_size = fragment.0;
          compound_id = fragment.1;
          fragment_index = fragment.2;
          payload = keep_payload (not single || not (r.buf.position == length r.buf.inner)) data';
          shared_payload = none;
        },
        r,
      ))

    -- `while reader.pos() < buf.len()`. Each round reads three bytes at least, so that the length
    -- of the datagram is fuel enough; the last error is that of a read at the end.
    unfoldable pub decode_loop : ℕ → Bool → ℕ → M RaknetReader (List (FrameSetPacket H))
    decode_loop zero single sequence_number r =
        if ltb r.buf.position (length r.buf.inner) then err read_packet_buffer_error else ok ([], r)
    decode_loop (suc fuel) single sequence_number r =
        let round = (do
          frame ← decode_frame single sequence_number
          frames ← decode_loop fuel false sequence_number
          pure (frame ∷ frames)) in
        if ltb r.buf.position (length r.buf.inner) then round r else ok ([], r)

    unfoldable pub decode : List ℕ → Bool → Result (List (FrameSetPacket H))
    decode datagram owned' =
        elim ((do
          sequence_number ← decode_start
          decode_loop (length datagram) owned' sequence_number)
          (new datagram)) [ ok (frames, r) ↦ ok frames | err e ↦ err e ]

    -- `decode_into`
    unfoldable pub decode_into : List ℕ → Result (List (FrameSetPacket H))
    unfolding decode
    decode_into datagram = decode datagram false

    -- `copy_within(offset.., 0)` and `truncate(length)`: the last bytes of the datagram.
    unfoldable pub move_payload : List ℕ → List (FrameSetPacket H) → List (FrameSetPacket H)
    move_payload datagram (frame ∷ []) =
        record frame {
          payload = owned (
              take frame.length_in_bytes (drop (length datagram - frame.length_in_bytes) datagram));
        }
        ∷ []
    move_payload datagram frames = frames

    unfoldable pub decode_owned_into : List ℕ → Result (List (FrameSetPacket H))
    unfolding decode move_payload
    decode_owned_into datagram =
        and_then (decode datagram true) λ frames. ok (move_payload datagram frames)
