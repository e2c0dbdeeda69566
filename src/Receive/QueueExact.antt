-- ===== src/Receive/QueueExact.antt =====
-- `RecvQ::insert` and `RecvQ::flush_into` of src/arq.rs keep the counts of bytes exact.
use rust_raknet.Prelude.{ℕ, refl, inl, inr, Bool, true, false, ◌||◌, List, ◌==◌, arith, Bool-cases}
use rust_raknet.Prelude.Maps.{get, is_some}
use rust_raknet.Error.{Result, ok, err}
use rust_raknet.Sequence.{ReliableWindow, accept, newer}
use rust_raknet.Frame.Reliability.{
  Reliability, unreliable, unreliable_sequenced, reliable, reliable_ordered, reliable_sequenced,
  has_reliable_index,
}
use rust_raknet.Frame.Packet.{FrameSetPacket, reliability}
use rust_raknet.Receive.Fragment.{same}
use rust_raknet.Receive.Channels.{ChannelIndexes, index_of}
use rust_raknet.Receive.AckSet.{AckSet}
use rust_raknet.Receive.Queue.{
  RecvQ, insert_sequenced, or_insert, insert_as, admitted, insert, insert_valid, insert_with, noted,
  with_window, flush_into,
}
use rust_raknet.Receive.QueueCounts.{IsExact, insert_ordered-IsExact}

module _ {H : Type 0} (bytes_deref : H → List ℕ) where
  -- The frames that wait for their order and the fragments are those of another queue.
  moved :
      (q : RecvQ bytes_deref) {sequenced : ChannelIndexes} {last : ChannelIndexes} {ackset : AckSet}
      {packets : List (ℕ × FrameSetPacket H)} {window : ReliableWindow}
      → IsExact bytes_deref q
      → IsExact bytes_deref (record q {
        sequenced_frame_indexes = sequenced;
        last_ordered_indexes = last;
        sequence_number_ackset = ackset;
        packets = packets;
        reliable_window = window;
      })
  moved q w = record {
    entries_lem = w.entries_lem;
    ordered_lem = w.ordered_lem;
    ready_lem = w.ready_lem;
    limit_lem = w.limit_lem;
    fragments_lem = w.fragments_lem;
  }

  or_insert-IsExact :
      (q : RecvQ bytes_deref) (frame : FrameSetPacket H)
      → IsExact bytes_deref q
      → IsExact bytes_deref (or_insert bytes_deref q frame)
  unfolding or_insert
  or_insert-IsExact q frame w =
      elim (Bool-cases (is_some (get same q.packets frame.sequence_number))) [
        | inl e ↦ rw e w
        | inr e ↦ rw e (moved q w)
      ]

  insert_sequenced-IsExact :
      (q : RecvQ bytes_deref) (frame : FrameSetPacket H)
      → IsExact bytes_deref q
      → IsExact bytes_deref (insert_sequenced bytes_deref q frame)
  unfolding insert_sequenced
  insert_sequenced-IsExact q frame w =
      let last_index = index_of q.sequenced_frame_indexes frame.order_channel in
      elim (Bool-cases (
        (frame.sequenced_frame_index == last_index)
        || newer frame.sequenced_frame_index last_index)) [
          | inl e ↦ rw e (moved (or_insert bytes_deref q frame) (or_insert-IsExact q frame w))
          | inr e ↦ rw e (moved q w)
        ]

  insert_as-IsExact :
      (r : Reliability) (q : RecvQ bytes_deref) (frame : FrameSetPacket H) (now : ℕ)
      → IsExact bytes_deref q
      → IsExact bytes_deref (insert_as bytes_deref r q frame now).1
  unfolding insert_as
  insert_as-IsExact unreliable q frame now w = or_insert-IsExact q frame w
  insert_as-IsExact unreliable_sequenced q frame now w = insert_sequenced-IsExact q frame w
  insert_as-IsExact reliable q frame now w = moved q w
  insert_as-IsExact reliable_ordered q frame now w =
      insert_ordered-IsExact bytes_deref q frame now w
  insert_as-IsExact reliable_sequenced q frame now w = insert_sequenced-IsExact q frame w

  admitted-IsExact :
      (fresh : Result Bool) (go : Result (Unit {0}) × RecvQ bytes_deref) (q : RecvQ bytes_deref)
      → IsExact bytes_deref go.1
      → IsExact bytes_deref q
      → IsExact bytes_deref (admitted bytes_deref fresh go q).1
  admitted-IsExact (ok true) go q w v = w
  admitted-IsExact (ok false) go q w v = v
  admitted-IsExact (err e) go q w v = v

  insert_valid-IsExact :
      (r : Reliability) (q : RecvQ bytes_deref) (frame : FrameSetPacket H) (now : ℕ)
      → IsExact bytes_deref q
      → IsExact bytes_deref (insert_valid bytes_deref r q frame now).1
  unfolding insert_valid
  insert_valid-IsExact r q frame now w =
      let (fresh, window) = accept q.reliable_window frame.reliable_frame_index in
      let q' = with_window bytes_deref (noted bytes_deref q frame) window in
      elim (Bool-cases (has_reliable_index r)) [
        | inl e ↦ rw e (
            admitted-IsExact fresh (insert_as bytes_deref r q' frame now) q'
              (insert_as-IsExact r q' frame now (moved q w)) (moved q w))
        | inr e ↦ rw e (insert_as-IsExact r (noted bytes_deref q frame) frame now (moved q w))
      ]

  insert_with-IsExact :
      (r : Result Reliability) (q : RecvQ bytes_deref) (frame : FrameSetPacket H) (now : ℕ)
      → IsExact bytes_deref q
      → IsExact bytes_deref (insert_with bytes_deref r q frame now).1
  insert_with-IsExact (ok r) q frame now w = insert_valid-IsExact r q frame now w
  insert_with-IsExact (err e) q frame now w = w

  -- Whatever frame arrives, a receive queue stays exact, and so it does when flush_into empties it
  -- afterwards: each key of the reordering table has one entry, ordered_bytes and ready_bytes are
  -- the lengths of the payloads in the table and in the ready frames, together at most 64 MiB, and
  -- the queue of fragments is accounted for.
  pub insert-IsExact :
      (q : RecvQ bytes_deref) (frame : FrameSetPacket H) (now : ℕ)
      → IsExact bytes_deref q
      → IsExact bytes_deref (insert bytes_deref q frame now).1
        × IsExact bytes_deref (flush_into bytes_deref (insert bytes_deref q frame now).1).1
  unfolding insert flush_into
  insert-IsExact q frame now w =
      let after = insert_with-IsExact (reliability frame) q frame now w in
      (
        after,
        record {
          entries_lem = after.entries_lem;
          ordered_lem = after.ordered_lem;
          ready_lem = refl;
          limit_lem = omega (arith, after.limit_lem);
          fragments_lem = after.fragments_lem;
        },
      )
