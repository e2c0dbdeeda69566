-- ===== src/Receive/QueueBounds.antt =====
-- How many frames the receive queue holds for their order.
use rust_raknet.Prelude.{ℕ, ◌≤◌, ◌≡◌, inl, inr, Bool, true, false, List, arith, Bool-cases}
use rust_raknet.Error.{Result, ok, err}
use rust_raknet.Sequence.{receive_window, accept}
use rust_raknet.Frame.Reliability.{
  Reliability, unreliable, unreliable_sequenced, reliable, reliable_ordered, reliable_sequenced,
  has_reliable_index,
}
use rust_raknet.Frame.Packet.{FrameSetPacket, reliability}
use rust_raknet.Receive.Queue.{
  RecvQ, ordered_count, insert_sequenced, or_insert, insert_as, admitted, insert, insert_valid,
  insert_with, noted, with_window,
}
use rust_raknet.Receive.QueueLaws.{insert_ordered-bound}

module _ {H : Type 0} (bytes_deref : H → List ℕ) where
  sequenced-count :
      (q : RecvQ bytes_deref) (frame : FrameSetPacket H)
      → ordered_count bytes_deref (insert_sequenced bytes_deref q frame)
        ≡ ordered_count bytes_deref q
  unfolding insert_sequenced or_insert ordered_count
  sequenced-count q frame = ground arith

  unordered-count :
      (q : RecvQ bytes_deref) (frame : FrameSetPacket H)
      → ordered_count bytes_deref (or_insert bytes_deref q frame) ≡ ordered_count bytes_deref q
  unfolding or_insert ordered_count
  unordered-count q frame = ground arith

  insert_as-bound :
      (r : Reliability) (q : RecvQ bytes_deref) (frame : FrameSetPacket H) (now : ℕ)
      → ordered_count bytes_deref q ≤ receive_window
      → ordered_count bytes_deref (insert_as bytes_deref r q frame now).1 ≤ receive_window
  unfolding insert_as ordered_count
  insert_as-bound unreliable q frame now h = omega (arith, h, unordered-count q frame)
  insert_as-bound unreliable_sequenced q frame now h = omega (arith, h, sequenced-count q frame)
  insert_as-bound reliable q frame now h = h
  insert_as-bound reliable_ordered q frame now h = insert_ordered-bound bytes_deref q frame now h
  insert_as-bound reliable_sequenced q frame now h = omega (arith, h, sequenced-count q frame)

  admitted-bound :
      (fresh : Result Bool) (go : Result (Unit {0}) × RecvQ bytes_deref) (q : RecvQ bytes_deref)
      → ordered_count bytes_deref go.1 ≤ receive_window
      → ordered_count bytes_deref q ≤ receive_window
      → ordered_count bytes_deref (admitted bytes_deref fresh go q).1 ≤ receive_window
  admitted-bound (ok true) go q h k = h
  admitted-bound (ok false) go q h k = k
  admitted-bound (err e) go q h k = k

  insert_valid-bound :
      (r : Reliability) (q : RecvQ bytes_deref) (frame : FrameSetPacket H) (now : ℕ)
      → ordered_count bytes_deref q ≤ receive_window
      → ordered_count bytes_deref (insert_valid bytes_deref r q frame now).1 ≤ receive_window
  unfolding insert_valid ordered_count
  insert_valid-bound r q frame now h =
      let (fresh, window) = accept q.reliable_window frame.reliable_frame_index in
      let q' = with_window bytes_deref (noted bytes_deref q frame) window in
      elim (Bool-cases (has_reliable_index r)) [
        | inl e ↦ rw e (
            admitted-bound fresh (insert_as bytes_deref r q' frame now) q'
              (insert_as-bound r q' frame now h) h)
        | inr e ↦ rw e (insert_as-bound r (noted bytes_deref q frame) frame now h)
      ]

  insert_with-bound :
      (r : Result Reliability) (q : RecvQ bytes_deref) (frame : FrameSetPacket H) (now : ℕ)
      → ordered_count bytes_deref q ≤ receive_window
      → ordered_count bytes_deref (insert_with bytes_deref r q frame now).1 ≤ receive_window
  insert_with-bound (ok r) q frame now h = insert_valid-bound r q frame now h
  insert_with-bound (err e) q frame now h = h

  -- Whatever frame arrives, a receive queue that holds at most 65536 frames waiting for their
  -- order or ready in it holds at most 65536 after it.
  pub ordered_count-insert :
      (q : RecvQ bytes_deref) (frame : FrameSetPacket H) (now : ℕ)
      → ordered_count bytes_deref q ≤ receive_window
      → ordered_count bytes_deref (insert bytes_deref q frame now).1 ≤ receive_window
  unfolding insert
  ordered_count-insert q frame now h = insert_with-bound (reliability frame) q frame now h
