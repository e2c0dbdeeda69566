-- ===== src/Receive/QueueLaws.antt =====
-- How many frames an ordered frame makes `RecvQ` of src/arq.rs hold.
use rust_raknet.Prelude.{
  ℕ, ◌+◌, ◌≤◌, ◌≡◌, inl, inr, false, Option, none, some, List, [], ◌∷◌, length, ltb, leb, ◌==◌,
  arith, Bool-cases, length-append,
}
use rust_raknet.Prelude.Maps.{get, put, is_some}
use rust_raknet.Error.{Result, ok, err}
use rust_raknet.Sequence.{receive_window, newer, distance}
use rust_raknet.Frame.Packet.{FrameSetPacket, is_fragment}
use rust_raknet.Receive.Fragment.{budget, FragmentQ, insert_and_take_completed}
use rust_raknet.Receive.Channels.{index_of}
use rust_raknet.Prelude.MapTotals.{length-without}
use rust_raknet.Receive.Drain.{drain_ordered-Drained}
use rust_raknet.Receive.Queue.{
  RecvQ, same_key, make_ready, drain_ordered, ordered_count, insert_complete, payload_length,
  with_complete, insert_ordered,
}

module _ {H : Type 0} (bytes_deref : H → List ℕ) where
  stored-bound :
      (q : RecvQ bytes_deref) (key : ℕ × ℕ) (frame : FrameSetPacket H) (n : ℕ)
      → leb receive_window (ordered_count bytes_deref q) ≡ false
      → ordered_count bytes_deref (record q {
        ordered_bytes = n;
        ordered_packets = put same_key q.ordered_packets key frame;
      })
        ≤ receive_window
  unfolding ordered_count
  stored-bound q key frame n h = ground (arith, length-without same_key q.ordered_packets key)

  ready-bound :
      (q : RecvQ bytes_deref) (channel : ℕ) (frame : FrameSetPacket H)
      → leb receive_window (ordered_count bytes_deref q) ≡ false
      → ordered_count bytes_deref (make_ready bytes_deref q channel frame) ≤ receive_window
  unfolding ordered_count make_ready
  ready-bound q channel frame h = ground (arith, length-append q.ready_ordered (frame ∷ []))

  drained-bound :
      (q : RecvQ bytes_deref) (channel : ℕ) (frame : FrameSetPacket H)
      → leb receive_window (ordered_count bytes_deref q) ≡ false
      → ordered_count bytes_deref (
          drain_ordered bytes_deref
            (length q.ordered_packets)
            channel
            (make_ready bytes_deref q channel frame))
        ≤ receive_window
  unfolding make_ready
  drained-bound q channel frame h =
      let drained =
        drain_ordered-Drained bytes_deref (length q.ordered_packets) channel
          (make_ready bytes_deref q channel frame) (omega arith) in
      omega (arith, drained.count_lem, ready-bound q channel frame h)

  insert_complete-bound :
      (q : RecvQ bytes_deref) (expected_index : ℕ) (frame : FrameSetPacket H)
      → ordered_count bytes_deref q ≤ receive_window
      → ordered_count bytes_deref (insert_complete bytes_deref q expected_index frame).1
        ≤ receive_window
  unfolding insert_complete
  insert_complete-bound q expected_index frame h =
      let key : ℕ × ℕ = (frame.order_channel, frame.ordered_frame_index) in
      elim (Bool-cases (is_some (get same_key q.ordered_packets key))) [
        | inl e ↦ rw e h
        | inr e ↦ elim (Bool-cases (leb receive_window (ordered_count bytes_deref q))) [
          | inl many ↦ rw (e, many) h
          | inr few ↦
              elim (Bool-cases
                (ltb budget (q.ordered_bytes + q.ready_bytes + payload_length bytes_deref frame))) [
                  | inl large ↦ rw (e, few, large) h
                  | inr small ↦ elim (Bool-cases (frame.ordered_frame_index == expected_index)) [
                    | inl next ↦
                        rw (e, few, small, next) (drained-bound q frame.order_channel frame few)
                    | inr later ↦
                        rw (e, few, small, later)
                          (stored-bound q key frame
                            (q.ordered_bytes + payload_length bytes_deref frame) few)
                  ]
                ]
        ]
      ]

  with_complete-bound :
      (q : RecvQ bytes_deref) (expected_index : ℕ) (r : Result (Option (FrameSetPacket H)))
      → ordered_count bytes_deref q ≤ receive_window
      → ordered_count bytes_deref (with_complete bytes_deref q expected_index r).1 ≤ receive_window
  with_complete-bound q expected_index (ok (some frame)) h =
      insert_complete-bound q expected_index frame h
  with_complete-bound q expected_index (ok none) h = h
  with_complete-bound q expected_index (err e) h = h

  held :
      (q : RecvQ bytes_deref) (fragments : FragmentQ bytes_deref)
      → ordered_count bytes_deref q ≤ receive_window
      → ordered_count bytes_deref (record q { fragment_queue = fragments }) ≤ receive_window
  unfolding ordered_count
  held q fragments h = h

  pub insert_ordered-bound :
      (q : RecvQ bytes_deref) (frame : FrameSetPacket H) (now : ℕ)
      → ordered_count bytes_deref q ≤ receive_window
      → ordered_count bytes_deref (insert_ordered bytes_deref q frame now).1 ≤ receive_window
  unfolding insert_ordered
  insert_ordered-bound q frame now h =
      let expected = index_of q.last_ordered_indexes frame.order_channel in
      elim (Bool-cases (newer expected frame.ordered_frame_index)) [
        | inl old ↦ rw old h
        | inr new ↦
            elim (Bool-cases (leb receive_window (distance frame.ordered_frame_index expected))) [
              | inl far ↦ rw (new, far) h
              | inr close ↦ elim (Bool-cases (is_fragment frame)) [
                | inl part ↦
                    rw (new, close, part)
                      (with_complete-bound
                        (record q {
                          fragment_queue =
                              (insert_and_take_completed bytes_deref q.fragment_queue frame now).1;
                        })
                        expected
                        (insert_and_take_completed bytes_deref q.fragment_queue frame now).0
                        (held q (insert_and_take_completed bytes_deref q.fragment_queue frame now).1
                          h))
                | inr whole ↦ rw (new, close, whole) (insert_complete-bound q expected frame h)
              ]
            ]
      ]
