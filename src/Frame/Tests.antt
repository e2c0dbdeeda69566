-- ===== src/Frame/Tests.antt =====
-- The datagram theorem at two frames, one of them a fragment, and the flags of each reliability.
use rust_raknet.Prelude.{ℕ, ◌≡◌, refl, none, List, [], ◌∷◌, arith}
use rust_raknet.Error.{ok, and_then}
use rust_raknet.Bytes.Reference.{reference}
use rust_raknet.Frame.Reliability.{reliable, reliable_ordered, reliability_of}
use rust_raknet.Frame.Packet.{
  is_reliable, is_sequenced, is_ordered, validate, bad_lengths, size, owned, bytes, FrameSetPacket,
  deref, is_fragment,
}
use rust_raknet.Frame.Encode.{serialize_group_into}
use rust_raknet.Frame.Decode.{decode_into}
use rust_raknet.Frame.RoundTrip.{Encodable}
use rust_raknet.Frame.DecodeLaws.{received}
use rust_raknet.Frame.Group.{decode_into-serialize_group_into}

-- The bytes of a buffer handle.
abbrev handle : List ℕ → List ℕ
handle content = content

abbrev whole : FrameSetPacket (List ℕ)
whole = record {
  sequence_number = 5;
  flags = 0x40;
  length_in_bytes = 3;
  reliable_frame_index = 17;
  sequenced_frame_index = 0;
  ordered_frame_index = 0;
  order_channel = 0;
  compound_size = 0;
  compound_id = 0;
  fragment_index = 0;
  payload = bytes (1 ∷ 2 ∷ 3 ∷ []);
  shared_payload = none;
}

abbrev fragment : FrameSetPacket (List ℕ)
fragment = record {
  sequence_number = 5;
  flags = 0x70;
  length_in_bytes = 2;
  reliable_frame_index = 18;
  sequenced_frame_index = 0;
  ordered_frame_index = 4;
  order_channel = 0;
  compound_size = 3;
  compound_id = 9;
  fragment_index = 2;
  payload = owned (8 ∷ 9 ∷ []);
  shared_payload = none;
}

whole-Encodable : Encodable handle reliable whole
unfolding reliability_of is_fragment deref validate bad_lengths size is_reliable is_sequenced
    is_ordered
whole-Encodable = record {
  kind_lem = refl;
  ranges = record {
    sequence_range = omega arith;
    flags_range = omega arith;
    reliable_range = omega arith;
    sequenced_range = omega arith;
    ordered_range = omega arith;
    channel_range = omega arith;
    size_range = omega arith;
    id_range = omega arith;
    index_range = omega arith;
  };
  valid = refl;
}

fragment-Encodable : Encodable handle reliable_ordered fragment
unfolding reliability_of is_fragment deref validate bad_lengths size is_reliable is_sequenced
    is_ordered
fragment-Encodable = record {
  kind_lem = refl;
  ranges = record {
    sequence_range = omega arith;
    flags_range = omega arith;
    reliable_range = omega arith;
    sequenced_range = omega arith;
    ordered_range = omega arith;
    channel_range = omega arith;
    size_range = omega arith;
    id_range = omega arith;
    index_range = omega arith;
  };
  valid = refl;
}

decode_into-serialize_group_into_example :
    and_then
      (serialize_group_into handle reference (whole ∷ fragment ∷ []))
      (decode_into reference.cursor)
    ≡ ok (received handle reliable whole ∷ received handle reliable_ordered fragment ∷ [])
decode_into-serialize_group_into_example =
    decode_into-serialize_group_into handle reference (reliable, whole, whole-Encodable)
      ((reliable_ordered, fragment, fragment-Encodable) ∷ []) (refl, tt)
