-- ===== src/Receive/Queue.antt =====
-- `RecvQ` of src/arq.rs.
use rust_raknet.Prelude.{
  ℕ, zero, suc, ◌+◌, ◌-◌, Bool, true, false, not, ◌&&◌, ◌||◌, Option, none, some, List, [], ◌∷◌,
  ◌++◌, length, ltb, leb, ◌==◌, if◌then◌else◌,
}
use rust_raknet.Prelude.Maps.{get, put, without, is_some}
use rust_raknet.Error.{Result, ok, err, packet_parse_error}
use rust_raknet.Sequence.{
  receive_window, next, newer, distance, ReliableWindow, ReliableWindow_default, accept,
}
use rust_raknet.Frame.Reliability.{
  Reliability, unreliable, unreliable_sequenced, reliable, reliable_ordered, reliable_sequenced,
  has_reliable_index,
}
use rust_raknet.Frame.Packet.{FrameSetPacket, deref, is_fragment, reliability}
use rust_raknet.Receive.AckSet.{AckSet, AckSet_default}
use rust_raknet.Receive.AckSet
use rust_raknet.Receive.Channels.{ChannelIndexes, ChannelIndexes_default, index_of, set_index}
use rust_raknet.Receive.Fragment.{
  same, budget, FragmentQ, FragmentQ_default, insert_and_take_completed,
}

abbrev pub same_key : ℕ × ℕ → ℕ × ℕ → Bool
same_key (a, b) (c, d) = (a == c) && (b == d)

module _ {H : Type 0} (bytes_deref : H → List ℕ) where
  pub record RecvQ : Type 0 where
    pub sequenced_frame_indexes : ChannelIndexes
    pub last_ordered_indexes : ChannelIndexes
    pub sequence_number_ackset : AckSet
    pub packets : List (ℕ × FrameSetPacket H)
    pub ordered_packets : List ((ℕ × ℕ) × FrameSetPacket H)
    pub fragment_queue : FragmentQ bytes_deref
    pub reliable_window : ReliableWindow
    pub ordered_bytes : ℕ
    pub ready_ordered : List (FrameSetPacket H)
    pub ready_bytes : ℕ

  -- `RecvQ::new`
  abbrev pub RecvQ_default : RecvQ
  RecvQ_default = record {
    sequenced_frame_indexes = ChannelIndexes_default;
    last_ordered_indexes = ChannelIndexes_default;
    sequence_number_ackset = AckSet_default;
    packets = [];
    ordered_packets = [];
    fragment_queue = FragmentQ_default bytes_deref;
    reliable_window = ReliableWindow_default;
    ordered_bytes = 0;
    ready_ordered = [];
    ready_bytes = 0;
  }

  -- `frame.data.len()`
  unfoldable pub payload_length : FrameSetPacket H → ℕ
  payload_length frame = length (deref bytes_deref frame.payload)

  -- `self.packets.entry(sequence_number).or_insert(frame)`
  unfoldable pub or_insert : RecvQ → FrameSetPacket H → RecvQ
  or_insert q frame =
      if is_some (get same q.packets frame.sequence_number)
      then q
      else record q { packets = (frame.sequence_number, frame) ∷ q.packets }

  -- The branches of the two sequenced reliabilities.
  unfoldable pub insert_sequenced : RecvQ → FrameSetPacket H → RecvQ
  unfolding or_insert index_of set_index
  insert_sequenced q frame =
      let last_index = index_of q.sequenced_frame_indexes frame.order_channel in
      let q' = or_insert q frame in
      if (frame.sequenced_frame_index == last_index) || newer frame.sequenced_frame_index last_index
      then record q' {
        sequenced_frame_indexes =
            set_index q.sequenced_frame_indexes frame.order_channel
              (next frame.sequenced_frame_index);
      }
      else record q {
        sequenced_frame_indexes =
            set_index q.sequenced_frame_indexes frame.order_channel last_index;
      }

  -- A frame that is next on `channel`.
  unfoldable pub make_ready : RecvQ → ℕ → FrameSetPacket H → RecvQ
  unfolding payload_length index_of set_index
  make_ready q channel frame = record q {
    ready_bytes = q.ready_bytes + payload_length frame;
    ready_ordered = q.ready_ordered ++ frame ∷ [];
    last_ordered_indexes =
        set_index q.last_ordered_indexes channel (next (index_of q.last_ordered_indexes channel));
  }

  -- A frame out of the reordering table.
  unfoldable pub take_ordered : RecvQ → ℕ × ℕ → FrameSetPacket H → RecvQ
  unfolding payload_length
  take_ordered q key frame = record q {
    ordered_packets = without same_key q.ordered_packets key;
    ordered_bytes = q.ordered_bytes - payload_length frame;
  }

  abbrev pub taken : RecvQ → ℕ → ℕ × ℕ → Option (FrameSetPacket H) → Option RecvQ
  taken q channel key none = none
  taken q channel key (some frame) = some (make_ready (take_ordered q key frame) channel frame)

  -- A round of the loop behind a frame that was next: `*expected` is the channel's index.
  unfoldable pub drain_round : RecvQ → ℕ → Option RecvQ
  unfolding make_ready take_ordered
  drain_round q channel =
      let key : ℕ × ℕ = (channel, index_of q.last_ordered_indexes channel) in
      taken q channel key (get same_key q.ordered_packets key)

  abbrev pub go_on : Option RecvQ → RecvQ → (RecvQ → RecvQ) → RecvQ
  go_on none q rest = q
  go_on (some q') q rest = rest q'

  -- Each round takes an entry of the table, so that their number is fuel enough.
  unfoldable pub drain_ordered : ℕ → ℕ → RecvQ → RecvQ
  unfolding drain_round
  drain_ordered zero channel q = q
  drain_ordered (suc fuel) channel q = go_on (drain_round q channel) q (drain_ordered fuel channel)

  -- `get_ordered_packet`
  unfoldable pub ordered_count : RecvQ → ℕ
  ordered_count q = length q.ordered_packets + length q.ready_ordered

  -- A frame that is whole, on a channel where `expected_index` comes next.
  unfoldable pub insert_complete : RecvQ → ℕ → FrameSetPacket H → Result (Unit {0}) × RecvQ
  unfolding drain_ordered ordered_count
  insert_complete q expected_index frame =
      let key : ℕ × ℕ = (frame.order_channel, frame.ordered_frame_index) in
      if is_some (get same_key q.ordered_packets key)
      then (ok tt, q)
      else if leb receive_window (ordered_count q)
          || ltb budget (q.ordered_bytes + q.ready_bytes + payload_length frame)
      then (err packet_parse_error, q)
      else if frame.ordered_frame_index == expected_index
      then (
        ok tt,
        drain_ordered (length q.ordered_packets) frame.order_channel
            (make_ready q frame.order_channel frame),
      )
      else (
        ok tt,
        record q {
          ordered_bytes = q.ordered_bytes + payload_length frame;
          ordered_packets = put same_key q.ordered_packets key frame;
        },
      )

  abbrev pub with_complete :
      RecvQ → ℕ → Result (Option (FrameSetPacket H)) → Result (Unit {0}) × RecvQ
  with_complete q expected_index (ok (some frame)) = insert_complete q expected_index frame
  with_complete q expected_index (ok none) = (ok tt, q)
  with_complete q expected_index (err e) = (err e, q)

  -- The branch `ReliableOrdered`. `complete` is the value of the `if`, of which a frame that is no
  -- fragment leaves the fragments alone.
  unfoldable pub insert_ordered : RecvQ → FrameSetPacket H → ℕ → Result (Unit {0}) × RecvQ
  unfolding insert_complete
  insert_ordered q frame now =
      let expected_index = index_of q.last_ordered_indexes frame.order_channel in
      let (complete, fragments) =
        insert_and_take_completed bytes_deref q.fragment_queue frame now in
      if newer expected_index frame.ordered_frame_index
      then (ok tt, q)
      else if leb receive_window (distance frame.ordered_frame_index expected_index)
      then (err packet_parse_error, q)
      else if is_fragment frame
      then with_complete (record q { fragment_queue = fragments }) expected_index complete
      else insert_complete q expected_index frame

  -- The match on the reliability.
  unfoldable pub insert_as : Reliability → RecvQ → FrameSetPacket H → ℕ → Result (Unit {0}) × RecvQ
  unfolding or_insert insert_sequenced insert_ordered
  insert_as unreliable q frame now = (ok tt, or_insert q frame)
  insert_as unreliable_sequenced q frame now = (ok tt, insert_sequenced q frame)
  insert_as reliable q frame now =
      (ok tt, record q { packets = put same q.packets frame.sequence_number frame })
  insert_as reliable_ordered q frame now = insert_ordered q frame now
  insert_as reliable_sequenced q frame now = (ok tt, insert_sequenced q frame)

  -- A reliable frame passes if the window accepts it as new.
  abbrev pub admitted : Result Bool → Result (Unit {0}) × RecvQ → RecvQ → Result (Unit {0}) × RecvQ
  admitted (ok true) go q = go
  admitted (ok false) go q = (ok tt, q)
  admitted (err e) go q = (err e, q)

  -- The queue after the first two steps of `insert`.
  abbrev pub noted : RecvQ → FrameSetPacket H → RecvQ
  noted q frame = record q {
    sequence_number_ackset = AckSet.insert q.sequence_number_ackset frame.sequence_number;
  }

  abbrev pub with_window : RecvQ → ReliableWindow → RecvQ
  with_window q window = record q { reliable_window = window }

  -- `insert` behind the check of the reliability. `is_reliable` is a test on it.
  unfoldable pub insert_valid :
      Reliability → RecvQ → FrameSetPacket H → ℕ → Result (Unit {0}) × RecvQ
  unfolding insert_as
  insert_valid r q frame now =
      let (fresh, window) = accept q.reliable_window frame.reliable_frame_index in
      let q' = with_window (noted q frame) window in
      if has_reliable_index r
      then admitted fresh (insert_as r q' frame now) q'
      else insert_as r (noted q frame) frame now

  abbrev pub insert_with :
      Result Reliability → RecvQ → FrameSetPacket H → ℕ → Result (Unit {0}) × RecvQ
  insert_with (err e) q frame now = (err e, q)
  insert_with (ok r) q frame now = insert_valid r q frame now

  unfoldable pub insert : RecvQ → FrameSetPacket H → ℕ → Result (Unit {0}) × RecvQ
  unfolding insert_valid
  insert q frame now = insert_with (reliability frame) q frame now

  -- `flush_into`, with the frames appended. The frames of `packets` come in the order of their
  -- sequence numbers.
  abbrev insert_sorted : FrameSetPacket H → List (FrameSetPacket H) → List (FrameSetPacket H)
  insert_sorted frame [] = frame ∷ []
  insert_sorted frame (f ∷ fs) =
      let rest = insert_sorted frame fs in
      if leb frame.sequence_number f.sequence_number then frame ∷ f ∷ fs else f ∷ rest

  abbrev pub sorted : List (ℕ × FrameSetPacket H) → List (FrameSetPacket H)
  sorted [] = []
  sorted ((number, frame) ∷ packets) = insert_sorted frame (sorted packets)

  unfoldable pub flush_into : RecvQ → List (FrameSetPacket H) × RecvQ
  flush_into q = (
    q.ready_ordered ++ sorted q.packets,
    record q { ready_ordered = []; ready_bytes = 0; packets = [] },
  )

  unfoldable pub needs_maintenance : RecvQ → Bool
  needs_maintenance q =
      not (length q.sequence_number_ackset.nack == 0)
      || not (length q.fragment_queue.fragments == 0)
