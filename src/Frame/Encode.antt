-- ===== src/Frame/Encode.antt =====
-- `write_header`, `encode_header`, `serialize_into` and `serialize_group_into` of src/arq.rs.
use Prim.Native.Nat.{bit_or}
use rust_raknet.Prelude.{
  ℕ, suc, ◌-◌, ◌*◌, ◌%◌, ◌^◌, Bool, true, false, not, ◌&&◌, List, [], ◌∷◌, ◌++◌, length, take, drop,
  replicate, ◌==◌, if◌then◌else◌,
}
use rust_raknet.Prelude.State.{M, ◌>>=◌, ◌>>◌, pure, lift}
use rust_raknet.Error.{Result, ok, err, and_then, refuse, packet_parse_error}
use rust_raknet.Bytes.{BytesCrate, BufMut}
use rust_raknet.Datatype.{big, little}
use rust_raknet.Datatype.Writer.{
  RaknetWriter, from_buffer, write, write_u8, write_u16, write_u24, write_u32,
}
use rust_raknet.Frame.Packet.{
  FrameSetPacket, deref, is_fragment, is_reliable, is_sequenced, is_ordered, size, validate,
}

abbrev pub needs_b_and_as_flag : ℕ
needs_b_and_as_flag = 0x4

abbrev pub continuous_send_flag : ℕ
continuous_send_flag = 0x8

-- `if test { m }`
abbrev pub when : {S : Type 0} → Bool → M S (Unit {0}) → M S (Unit {0})
when true m = m
when false m = pure tt

module _ {H : Type 0} where
  -- The packet's identifier, with the continuation bit for all fragments after the first.
  unfoldable pub header_id : FrameSetPacket H → ℕ
  header_id frame =
      let id = bit_or 0x80 needs_b_and_as_flag in
      if is_fragment frame && not (frame.fragment_index == 0)
      then bit_or id continuous_send_flag
      else id

  module _ {B : Type 0} (buf : BufMut B) where
    -- From the flags on: what each frame of a datagram has.
    unfoldable pub write_frame_fields : FrameSetPacket H → M (RaknetWriter B) (Unit {0})
    write_frame_fields frame = do
      write_u8 buf frame.flags
      write_u16 buf (frame.length_in_bytes * 8 % 2 ^ 16) big
      reliable ← lift (is_reliable frame)
      when reliable (write_u24 buf frame.reliable_frame_index little)
      sequenced ← lift (is_sequenced frame)
      when sequenced (write_u24 buf frame.sequenced_frame_index little)
      ordered ← lift (is_ordered frame)
      when ordered
          do write_u24 buf frame.ordered_frame_index little; write_u8 buf frame.order_channel
      when (is_fragment frame) do
        write_u32 buf frame.compound_size big
        write_u16 buf frame.compound_id big
        write_u32 buf frame.fragment_index big

    unfoldable pub write_header : FrameSetPacket H → M (RaknetWriter B) (Unit {0})
    write_header frame = do
      write_u8 buf (header_id frame)
      write_u24 buf frame.sequence_number little
      write_frame_fields frame

module _ {H : Type 0} (bytes_deref : H → List ℕ) (crate : BytesCrate) where
  -- The result, and `header`, of 32 bytes, after the call.
  unfoldable pub encode_header : FrameSetPacket H → List ℕ → Result (ℕ × List ℕ)
  encode_header frame header = and_then (validate bytes_deref frame) λ _.
      elim (write_header crate.slice frame (from_buffer (record { filled = []; room = 32 }))) [
        | ok (done, w) ↦ ok (
          32 - crate.slice.remaining_mut w.buf,
          w.buf.filled ++ drop (length w.buf.filled) header,
        )
        | err e ↦ err e
      ]

  -- The result, and `buffer` after the call. A write to a `Vec` does not fail.
  unfoldable pub serialize_into : FrameSetPacket H → List ℕ → Result (Unit {0}) × List ℕ
  serialize_into frame buffer =
      elim (and_then (validate bytes_deref frame) λ _. size bytes_deref frame) [
        | err e ↦ (err e, buffer)
        | ok n ↦
            elim ((write_header crate.vec frame
                >> write crate.vec (deref bytes_deref frame.payload))
              (from_buffer [])) [ ok (done, w) ↦ (ok tt, w.buf) | err e ↦ (err e, []) ]
      ]

  unfoldable pub serialize : FrameSetPacket H → Result (List ℕ)
  unfolding serialize_into
  serialize frame = let (result, buffer) = serialize_into frame [] in and_then result λ _. ok buffer

  -- One round of the loop: the header, without its first four bytes behind the first frame, and
  -- the payload.
  unfoldable pub group_frame : ℕ → ℕ → FrameSetPacket H → Result (List ℕ)
  group_frame first index frame =
      and_then (refuse (not (frame.sequence_number == first)) packet_parse_error) λ _.
        and_then (encode_header frame (replicate 32 0)) λ encoded. ok (
          drop (if index == 0 then 0 else 4) (take encoded.0 encoded.1)
          ++ deref bytes_deref frame.payload)

  unfoldable pub group_loop : ℕ → ℕ → List (FrameSetPacket H) → Result (List ℕ)
  group_loop first index [] = ok []
  group_loop first index (frame ∷ frames) =
      and_then (group_frame first index frame)
        λ output. and_then (group_loop first (suc index) frames) λ rest. ok (output ++ rest)

  -- `output` after a successful call, whatever it held before.
  unfoldable pub serialize_group_into : List (FrameSetPacket H) → Result (List ℕ)
  unfolding group_loop group_frame
  serialize_group_into [] = err packet_parse_error
  serialize_group_into (frame ∷ frames) = group_loop frame.sequence_number 0 (frame ∷ frames)
