-- ===== src/Send/Queue.antt =====
-- `SendQ` of src/arq.rs, and what it says of its capacity. The counter that the fragments of a
-- message share behind an `Arc` is an entry of `shared`, at the place that their frames hold.
use rust_raknet.Prelude.{
  ℕ, ◌+◌, ◌-◌, ◌*◌, ◌/◌, Bool, true, false, ◌&&◌, List, [], ◌∷◌, length, ltb, leb, ◌==◌,
  if◌then◌else◌, max,
}
use rust_raknet.Error.{Result, ok, ◌>>=◌, ◌>>◌, refuse, packet_size_exceed_mtu}
use rust_raknet.Sequence.{mask}
use rust_raknet.Frame.Reliability.{Reliability, unreliable, unreliable_sequenced, reliable_ordered}
use rust_raknet.Frame.Packet.{FrameSetPacket}
use rust_raknet.Receive.Fragment.{max_fragments}
use rust_raknet.Receive.Channels.{ChannelIndexes, ChannelIndexes_default}
use rust_raknet.Send.Timing.{default_timeout_mills, i64_max}

abbrev pub max_in_flight_packets : ℕ
max_in_flight_packets = 64

abbrev pub max_coalesced_frames : ℕ
max_coalesced_frames = 8

abbrev pub max_buffered_bytes : ℕ
max_buffered_bytes = 64 * 1024 * 1024

abbrev pub send_high_water : ℕ
send_high_water = 256 * 1024

abbrev pub frame_budget : ℕ
frame_budget = 128

pub record SharedPayload : Type 0 where
  pub remaining : ℕ
  pub bytes : ℕ

-- An entry of `sent_packet`: the frame, whether it is in flight, the last send time, the count of
-- retries, and prior sequence numbers.
pub record SentPacket (H : Type 0) : Type 0 where
  pub frame : FrameSetPacket H
  pub in_flight : Bool
  pub time : ℕ
  pub retries : ℕ
  pub prior : List ℕ

pub record SendQ (H : Type 0) : Type 0 where
  pub mtu : ℕ
  pub ack_sequence_number : ℕ
  pub sequence_number : ℕ
  pub reliable_frame_index : ℕ
  pub sequenced_frame_indexes : ChannelIndexes
  pub ordered_frame_indexes : ChannelIndexes
  pub compound_id : ℕ
  pub packets : List (FrameSetPacket H)
  pub queued_unreliable : ℕ
  pub buffered_bytes : ℕ
  pub rto : ℕ
  pub srtt : ℕ
  pub sent_packet : List (SentPacket H)
  pub flight_order_dirty : Bool
  pub next_retry : ℕ
  pub retries_pending : Bool
  pub coalesce : Bool
  pub coalescing_allowed : Bool
  pub grouped_acks : Bool
  pub shared : List SharedPayload

abbrev pub is_ordered_kind : Reliability → Bool
is_ordered_kind reliable_ordered = true
is_ordered_kind _ = false

abbrev pub is_unreliable_kind : Reliability → Bool
is_unreliable_kind unreliable = true
is_unreliable_kind unreliable_sequenced = true
is_unreliable_kind _ = false

-- `div_ceil`
abbrev pub div_ceil : ℕ → ℕ → ℕ
div_ceil a b = (a + b - 1) / b

-- How many frames a message of `len` bytes takes.
unfoldable pub frame_count : Reliability → ℕ → ℕ → ℕ
frame_count reliability len payload =
    if is_ordered_kind reliability && ltb payload len then div_ceil len payload else 1

module _ {H : Type 0} where
  abbrev pub SendQ_new : ℕ → SendQ H
  SendQ_new mtu = record {
    mtu = mtu;
    ack_sequence_number = mask;
    sequence_number = 0;
    reliable_frame_index = 0;
    sequenced_frame_indexes = ChannelIndexes_default;
    ordered_frame_indexes = ChannelIndexes_default;
    compound_id = 0;
    packets = [];
    queued_unreliable = 0;
    buffered_bytes = 0;
    rto = default_timeout_mills;
    srtt = default_timeout_mills;
    sent_packet = [];
    flight_order_dirty = false;
    next_retry = i64_max;
    retries_pending = false;
    coalesce = false;
    coalescing_allowed = true;
    grouped_acks = false;
    shared = [];
  }

  -- `self.mtu.checked_sub(60)` that is not 0
  unfoldable pub max_payload : SendQ H → Result ℕ
  max_payload q = do refuse (leb q.mtu 60) packet_size_exceed_mtu; ok (q.mtu - 60)

  -- A product or a sum past `usize` is past the limit too. A single frame passes the first test.
  unfoldable pub required_bytes : SendQ H → Reliability → ℕ → Result ℕ
  unfolding max_payload frame_count
  required_bytes q reliability len = do
    payload ← max_payload q
    refuse (ltb max_fragments (frame_count reliability len payload)) packet_size_exceed_mtu
    let bytes = frame_count reliability len payload * frame_budget + len
    refuse (ltb max_buffered_bytes bytes) packet_size_exceed_mtu
    ok bytes

  -- The test of `has_capacity` and `has_batch_capacity`.
  unfoldable pub has_room : SendQ H → ℕ → Bool
  has_room q required = leb (q.buffered_bytes + required) (max send_high_water required)

  unfoldable pub has_capacity : SendQ H → Reliability → ℕ → Result Bool
  unfolding required_bytes has_room
  has_capacity q reliability len = do
    required ← required_bytes q reliability len
    ok (has_room q required)

  -- `lengths.try_fold(total, ..)`
  unfoldable pub batch_bytes : SendQ H → Reliability → ℕ → List ℕ → Result ℕ
  batch_bytes q reliability total [] = ok total
  batch_bytes q reliability total (len ∷ lengths) = do
    required ← required_bytes q reliability len
    refuse (ltb max_buffered_bytes (total + required)) packet_size_exceed_mtu
    batch_bytes q reliability (total + required) lengths

  unfoldable pub has_batch_capacity : SendQ H → Reliability → List ℕ → Result Bool
  unfolding batch_bytes has_room
  has_batch_capacity q reliability lengths = do
    required ← batch_bytes q reliability 0 lengths
    ok (has_room q required)

  unfoldable pub enable_coalescing : SendQ H → SendQ H
  enable_coalescing q = record q { coalesce = q.coalescing_allowed }

  unfoldable pub is_empty : SendQ H → Bool
  is_empty q = (length q.packets == 0) && (length q.sent_packet == 0)
