-- ===== src/Send/Insert.antt =====
-- `insert_payload` of `SendQ`: the frames of a message join the queue. `bytes_slice data start end`
-- is `data.slice(start..end)` of the crate `bytes`.
use Prim.Native.Nat.{bit_or}
use rust_raknet.Prelude.{
  ℕ, zero, suc, ◌+◌, ◌-◌, ◌*◌, ◌%◌, ◌^◌, Bool, false, Option, none, some, List, [], ◌∷◌, ◌++◌,
  length, take, drop, ltb, if◌then◌else◌,
}
use rust_raknet.Error.{Result, ok, ◌>>=◌, ◌>>◌, refuse, packet_size_exceed_mtu}
use rust_raknet.Sequence.{next}
use rust_raknet.Frame.Reliability.{
  Reliability, unreliable, unreliable_sequenced, reliable, reliable_ordered, reliable_sequenced,
}
use rust_raknet.Frame.Packet.{FramePayload, owned, bytes, shared, FrameSetPacket, from_payload}
use rust_raknet.Receive.Channels.{index_of, set_index}
use rust_raknet.Send.Queue.{
  SendQ, max_payload, required_bytes, max_buffered_bytes, div_ceil, is_unreliable_kind,
}

module _ {H : Type 0} (bytes_deref : H → List ℕ) (bytes_slice : H → ℕ → ℕ → H) where
  -- `owned.map_or_else(|| FramePayload::Owned(buf.to_vec()), |data| FramePayload::Bytes(data.clone()))`
  abbrev pub owned_payload : List ℕ → Option H → FramePayload H
  owned_payload buf none = owned buf
  owned_payload buf (some data') = bytes data'

  -- The same with `FramePayload::copy_shared(buf)`
  abbrev pub copied_payload : List ℕ → Option H → FramePayload H
  copied_payload buf none = shared buf 0 (length buf % 2 ^ 16)
  copied_payload buf (some data') = bytes data'

  -- The payload of the fragment from `start` on.
  abbrev pub part_payload : List ℕ → Option H → ℕ → ℕ → FramePayload H
  part_payload buf none start length' = shared buf (start % 2 ^ 32) (length' % 2 ^ 16)
  part_payload buf (some data') start length' = bytes (bytes_slice data' start (start + length'))

  -- `self.packets.push_back(frame)`
  abbrev pub push_back : SendQ H → FrameSetPacket H → SendQ H
  push_back q frame = record q { packets = q.packets ++ frame ∷ [] }

  -- `push_back` of a reliable frame, whose index is given out.
  abbrev pub push_reliable : SendQ H → FrameSetPacket H → SendQ H
  push_reliable q frame = record q {
    packets = q.packets ++ record frame { reliable_frame_index = q.reliable_frame_index } ∷ [];
    reliable_frame_index = next q.reliable_frame_index;
  }

  -- What both sequenced branches give a frame: the current index of its channel.
  unfoldable pub sequenced_frame : SendQ H → FrameSetPacket H → ℕ → FrameSetPacket H
  sequenced_frame q frame channel = record frame {
    order_channel = channel;
    ordered_frame_index = index_of q.ordered_frame_indexes channel;
    sequenced_frame_index = index_of q.sequenced_frame_indexes channel;
  }

  unfoldable pub next_sequenced : SendQ H → ℕ → SendQ H
  next_sequenced q channel = record q {
    sequenced_frame_indexes =
        set_index q.sequenced_frame_indexes channel
          (next (index_of q.sequenced_frame_indexes channel));
  }

  unfoldable pub next_ordered : SendQ H → ℕ → SendQ H
  next_ordered q channel = record q {
    ordered_frame_indexes =
        set_index q.ordered_frame_indexes channel (next (index_of q.ordered_frame_indexes channel));
  }

  -- The fragment `index` of a message in `count` fragments of `size` bytes, the last one of what
  -- is left, with their counter at `place`.
  unfoldable pub fragment : SendQ H → List ℕ → Option H → ℕ → ℕ → ℕ → ℕ → ℕ → FrameSetPacket H
  unfolding from_payload
  fragment q buf data' channel size count place index =
      let start = index * size in
      let frame =
        from_payload bytes_deref reliable_ordered
          (part_payload buf data' start (length (take size (drop start buf)))) in
      record frame {
        shared_payload = some place;
        flags = bit_or frame.flags 16;
        compound_size = count % 2 ^ 32;
        compound_id = q.compound_id;
        fragment_index = index % 2 ^ 32;
        order_channel = channel;
        ordered_frame_index = index_of q.ordered_frame_indexes channel;
      }

  -- `for (fragment_index, chunk) in buf.chunks(max_payload).enumerate()`, on the chunks left.
  unfoldable pub fragment_loop : ℕ → ℕ → (ℕ → FrameSetPacket H) → SendQ H → SendQ H
  fragment_loop zero index part q = q
  fragment_loop (suc left) index part q =
      fragment_loop left (index + 1) part (push_reliable q (part index))

  -- A message that is longer than a frame. Its count of fragments passed `required_bytes`.
  unfoldable pub insert_fragments : SendQ H → List ℕ → Option H → ℕ → ℕ → SendQ H
  unfolding fragment_loop fragment
  insert_fragments q buf data' channel size =
      let count = div_ceil (length buf) size in
      let part = fragment q buf data' channel size count (length q.shared) in
      let counted = record q {
        shared = q.shared ++ record { remaining = count; bytes = length buf } ∷ [];
      } in
      let queued = fragment_loop count 0 part counted in
      record queued { compound_id = (q.compound_id + 1) % 2 ^ 16 }

  -- The match on the reliability, for a message that fits or may be split.
  unfoldable pub insert_as : Reliability → SendQ H → List ℕ → Option H → ℕ → ℕ → SendQ H
  unfolding sequenced_frame next_sequenced next_ordered insert_fragments from_payload
  insert_as unreliable q buf data' channel size =
      push_back q (from_payload bytes_deref unreliable (owned_payload buf data'))
  insert_as unreliable_sequenced q buf data' channel size =
      let frame = from_payload bytes_deref unreliable_sequenced (owned_payload buf data') in
      push_back (next_sequenced q channel) (sequenced_frame q frame channel)
  insert_as reliable q buf data' channel size =
      push_reliable q (from_payload bytes_deref reliable (copied_payload buf data'))
  insert_as reliable_ordered q buf data' channel size =
      let frame = from_payload bytes_deref reliable_ordered (copied_payload buf data') in
      let whole = push_reliable q (record frame {
        order_channel = channel;
        ordered_frame_index = index_of q.ordered_frame_indexes channel;
      }) in
      next_ordered
        (if ltb size (length buf) then insert_fragments q buf data' channel size else whole) channel
  insert_as reliable_sequenced q buf data' channel size =
      let frame = from_payload bytes_deref reliable_sequenced (copied_payload buf data') in
      push_reliable (next_sequenced q channel) (sequenced_frame q frame channel)

  -- Only `ReliableOrdered` splits.
  abbrev pub too_long : Reliability → ℕ → ℕ → Bool
  too_long reliable_ordered len size = false
  too_long _ len size = ltb size len

  -- What follows the match: the bytes are reserved, and an unreliable frame is counted.
  unfoldable pub reserve : Reliability → ℕ → SendQ H → SendQ H
  reserve reliability reserved q = record q {
    buffered_bytes = q.buffered_bytes + reserved;
    queued_unreliable =
        if is_unreliable_kind reliability then q.queued_unreliable + 1 else q.queued_unreliable;
  }

  -- An error leaves the queue as it was.
  unfoldable pub insert_payload : SendQ H → Reliability → List ℕ → ℕ → Option H → Result (SendQ H)
  unfolding insert_as reserve
  insert_payload q reliability buf channel data' = do
    reserved ← required_bytes q reliability (length buf)
    refuse (ltb (max_buffered_bytes - q.buffered_bytes) reserved) packet_size_exceed_mtu
    size ← max_payload q
    refuse (too_long reliability (length buf) size) packet_size_exceed_mtu
    ok (reserve reliability reserved (insert_as reliability q buf data' channel size))

  unfoldable pub insert_with_order_channel : SendQ H → Reliability → List ℕ → ℕ → Result (SendQ H)
  unfolding insert_payload
  insert_with_order_channel q reliability buf channel =
      insert_payload q reliability buf channel none

  unfoldable pub insert_bytes : SendQ H → Reliability → H → ℕ → Result (SendQ H)
  unfolding insert_payload
  insert_bytes q reliability data' channel =
      insert_payload q reliability (bytes_deref data') channel (some data')

  unfoldable pub insert : SendQ H → Reliability → List ℕ → Result (SendQ H)
  unfolding insert_with_order_channel
  insert q reliability buf = insert_with_order_channel q reliability buf 0
