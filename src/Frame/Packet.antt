-- ===== src/Frame/Packet.antt =====
-- `FramePayload` and `FrameSetPacket` of src/arq.rs. `H` is the type `bytes::Bytes`, and
-- `bytes_deref` its `Deref` to a slice.
use rust_raknet.Prelude.{
  ℕ, ◌+◌, ◌/◌, ◌%◌, ◌^◌, Bool, not, ◌&&◌, ◌||◌, Option, none, List, length, take, drop, ltb, leb,
  ◌==◌, if◌then◌else◌,
}
use rust_raknet.Error.{Result, ok, ◌>>=◌, ◌>>◌, refuse, packet_parse_error}
use rust_raknet.Frame.Reliability.{
  Reliability, has_reliable_index, has_ordered_index, has_sequenced_index, reliability_of,
  fragment_bit, flags_of,
}

-- `Shared` is an `Arc<[u8]>` with the part of it that is meant.
pub data FramePayload (H : Type 0) : Type 0 where
  owned : List ℕ → FramePayload H
  bytes : H → FramePayload H
  shared : List ℕ → ℕ → ℕ → FramePayload H

-- `shared_payload` is an `Arc`: the place of the counter that the fragments of a message share.
pub record FrameSetPacket (H : Type 0) : Type 0 where
  pub sequence_number : ℕ
  pub flags : ℕ
  pub length_in_bytes : ℕ
  pub reliable_frame_index : ℕ
  pub sequenced_frame_index : ℕ
  pub ordered_frame_index : ℕ
  pub order_channel : ℕ
  pub compound_size : ℕ
  pub compound_id : ℕ
  pub fragment_index : ℕ
  pub payload : FramePayload H
  pub shared_payload : Option ℕ

module _ {H : Type 0} (bytes_deref : H → List ℕ) where
  unfoldable pub deref : FramePayload H → List ℕ
  deref (owned data') = data'
  deref (bytes data') = bytes_deref data'
  deref (shared owner start length') = take length' (drop start owner)

  unfoldable pub from_payload : Reliability → FramePayload H → FrameSetPacket H
  unfolding flags_of deref
  from_payload r payload = record {
    sequence_number = 0;
    flags = flags_of r;
    length_in_bytes = length (deref payload) % 2 ^ 16;
    reliable_frame_index = 0;
    sequenced_frame_index = 0;
    ordered_frame_index = 0;
    order_channel = 0;
    compound_size = 0;
    compound_id = 0;
    fragment_index = 0;
    payload = payload;
    shared_payload = none;
  }

  -- `FrameSetPacket::new`
  unfoldable pub new : Reliability → List ℕ → FrameSetPacket H
  unfolding from_payload
  new r data' = from_payload r (owned data')

module _ {H : Type 0} where
  unfoldable pub is_fragment : FrameSetPacket H → Bool
  unfolding fragment_bit
  is_fragment frame = fragment_bit frame.flags

  unfoldable pub reliability : FrameSetPacket H → Result Reliability
  unfolding reliability_of
  reliability frame = reliability_of frame.flags

  unfoldable pub is_reliable : FrameSetPacket H → Result Bool
  unfolding has_reliable_index reliability_of
  is_reliable frame = do r ← reliability_of frame.flags; ok (has_reliable_index r)

  unfoldable pub is_ordered : FrameSetPacket H → Result Bool
  unfolding has_ordered_index reliability_of
  is_ordered frame = do r ← reliability_of frame.flags; ok (has_ordered_index r)

  unfoldable pub is_sequenced : FrameSetPacket H → Result Bool
  unfolding has_sequenced_index reliability_of
  is_sequenced frame = do r ← reliability_of frame.flags; ok (has_sequenced_index r)

module _ {H : Type 0} (bytes_deref : H → List ℕ) where
  -- `_size`
  unfoldable pub size : FrameSetPacket H → Result ℕ
  size frame = do
    reliable ← is_reliable frame
    sequenced ← is_sequenced frame
    ordered ← is_ordered frame
    ok (
        1
        + 3
        + 1
        + 2
        + (if reliable then 3 else 0)
        + (if sequenced then 3 else 0)
        + (if ordered then 4 else 0)
        + (if is_fragment frame then 10 else 0)
        + length (deref bytes_deref frame.payload))

  unfoldable pub bad_lengths : FrameSetPacket H → Bool
  bad_lengths frame =
      not (length (deref bytes_deref frame.payload) == frame.length_in_bytes)
      || ltb (65_535 / 8) (length (deref bytes_deref frame.payload))
      || is_fragment frame
        && (frame.compound_size == 0 || leb frame.compound_size frame.fragment_index)

  unfoldable pub validate : FrameSetPacket H → Result (Unit {0})
  unfolding bad_lengths
  validate frame = do refuse (bad_lengths frame) packet_parse_error; size frame; ok tt
