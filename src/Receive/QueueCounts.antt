-- ===== src/Receive/QueueCounts.antt =====
-- The counts of bytes of `RecvQ` of src/arq.rs.
use rust_raknet.Prelude.{
  ℕ, zero, suc, ◌+◌, ◌≤◌, ◌≡◌, refl, ap, inl, inr, ◌||◌, Option, none, some, List, [], ◌∷◌, ◌++◌,
  length, ltb, leb, ◌==◌, arith, Bool-cases, Option-cases,
}
use rust_raknet.Prelude.Maps.{get, put}
use rust_raknet.Prelude.MapTotals.{
  total, measure_at, AreEntries, total-without, AreEntries-without, AreEntries-put,
}
use rust_raknet.Error.{Result, ok, err}
use rust_raknet.Sequence.{receive_window, newer, distance}
use rust_raknet.Frame.Packet.{FrameSetPacket, is_fragment}
use rust_raknet.Receive.Fragment.{budget, insert_and_take_completed}
use rust_raknet.Receive.FragmentLaws.{IsAccounted, insert_and_take_completed-IsAccounted}
use rust_raknet.Receive.Channels.{index_of}
use rust_raknet.Receive.ChannelLaws.{same_key-IsEquality}
use rust_raknet.Receive.Run.{total_length}
use rust_raknet.Receive.Queue.{
  RecvQ, same_key, take_ordered, make_ready, drain_round, drain_ordered, ordered_count,
  payload_length, insert_complete, with_complete, insert_ordered,
}

module _ {H : Type 0} (bytes_deref : H → List ℕ) where
  abbrev AnyFrame : FrameSetPacket H → Type 0
  AnyFrame frame = Unit

  -- Each key of the reordering table has one entry, the counts of bytes are those of the frames
  -- that are held, both within 64 MiB, and the fragments are accounted for.
  pub record IsExact (q : RecvQ bytes_deref) : Type 0 where
    pub entries_lem : AreEntries same_key same_key-IsEquality AnyFrame q.ordered_packets
    pub ordered_lem :
        q.ordered_bytes
        ≡ total same_key same_key-IsEquality (payload_length bytes_deref) q.ordered_packets
    pub ready_lem : q.ready_bytes ≡ total_length bytes_deref q.ready_ordered
    pub limit_lem : q.ordered_bytes + q.ready_bytes ≤ budget
    pub fragments_lem : IsAccounted bytes_deref q.fragment_queue

  total_length-append :
      (frames : List (FrameSetPacket H)) (frame : FrameSetPacket H)
      → total_length bytes_deref (frames ++ frame ∷ [])
        ≡ total_length bytes_deref frames + payload_length bytes_deref frame
  total_length-append [] frame = omega arith
  total_length-append (f ∷ frames) frame = omega (arith, total_length-append frames frame)

  make_ready-IsExact :
      (q : RecvQ bytes_deref) (channel : ℕ) (frame : FrameSetPacket H)
      → IsExact q
      → q.ordered_bytes + q.ready_bytes + payload_length bytes_deref frame ≤ budget
      → IsExact (make_ready bytes_deref q channel frame)
  unfolding make_ready
  make_ready-IsExact q channel frame w h = record {
    entries_lem = w.entries_lem;
    ordered_lem = w.ordered_lem;
    ready_lem = omega (arith, w.ready_lem, total_length-append q.ready_ordered frame);
    limit_lem = omega (arith, h);
    fragments_lem = w.fragments_lem;
  }

  -- What comes off the count is a part of it.
  take_ordered-IsExact :
      (q : RecvQ bytes_deref) (key : ℕ × ℕ) (frame : FrameSetPacket H)
      → IsExact q
      → get same_key q.ordered_packets key ≡ some frame
      → IsExact (take_ordered bytes_deref q key frame)
        × ((take_ordered bytes_deref q key frame).ordered_bytes + payload_length bytes_deref frame
            ≡ q.ordered_bytes)
  unfolding take_ordered
  take_ordered-IsExact q key frame w h =
      let rest =
        total-without same_key same_key-IsEquality AnyFrame (payload_length bytes_deref)
          q.ordered_packets key w.entries_lem in
      let found = ap (measure_at same_key same_key-IsEquality (payload_length bytes_deref)) h in
      (
        record {
          entries_lem =
              AreEntries-without same_key same_key-IsEquality AnyFrame q.ordered_packets key
                w.entries_lem;
          ordered_lem = omega (arith, rest, found, w.ordered_lem);
          ready_lem = w.ready_lem;
          limit_lem = omega (arith, w.limit_lem);
          fragments_lem = w.fragments_lem;
        },
        omega (arith, rest, found, w.ordered_lem),
      )

  drain_ordered-IsExact :
      (fuel channel : ℕ) (q : RecvQ bytes_deref)
      → IsExact q
      → IsExact (drain_ordered bytes_deref fuel channel q)
  unfolding drain_ordered drain_round
  drain_ordered-IsExact zero channel q w = w
  drain_ordered-IsExact (suc fuel) channel q w =
      let key : ℕ × ℕ = (channel, index_of q.last_ordered_indexes channel) in
      elim (Option-cases (get same_key q.ordered_packets key)) [
        | inl e ↦ rw e w
        | inr (frame, e) ↦
            let (taken, exact) = take_ordered-IsExact q key frame w e in
            let same_ready : (take_ordered bytes_deref q key frame).ready_bytes ≡ q.ready_bytes =
              unfold take_ordered in refl in
            rw e (
              drain_ordered-IsExact fuel channel _ (
                make_ready-IsExact (take_ordered bytes_deref q key frame) channel frame taken
                  (omega (arith, exact, same_ready, w.limit_lem))))
      ]

  stored-IsExact :
      (q : RecvQ bytes_deref) (key : ℕ × ℕ) (frame : FrameSetPacket H)
      → IsExact q
      → get same_key q.ordered_packets key ≡ none
      → q.ordered_bytes + q.ready_bytes + payload_length bytes_deref frame ≤ budget
      → IsExact (record q {
        ordered_bytes = q.ordered_bytes + payload_length bytes_deref frame;
        ordered_packets = put same_key q.ordered_packets key frame;
      })
  stored-IsExact q key frame w new h =
      let rest =
        total-without same_key same_key-IsEquality AnyFrame (payload_length bytes_deref)
          q.ordered_packets key w.entries_lem in
      let free = ap (measure_at same_key same_key-IsEquality (payload_length bytes_deref)) new in
      record {
        entries_lem =
            AreEntries-put same_key same_key-IsEquality AnyFrame q.ordered_packets key frame
              w.entries_lem tt;
        ordered_lem = omega (arith, rest, free, w.ordered_lem);
        ready_lem = w.ready_lem;
        limit_lem = omega (arith, h);
        fragments_lem = w.fragments_lem;
      }

  insert_complete-IsExact :
      (q : RecvQ bytes_deref) (expected_index : ℕ) (frame : FrameSetPacket H)
      → IsExact q
      → IsExact (insert_complete bytes_deref q expected_index frame).1
  unfolding insert_complete
  insert_complete-IsExact q expected_index frame w =
      let key : ℕ × ℕ = (frame.order_channel, frame.ordered_frame_index) in
      let full =
        leb receive_window (ordered_count bytes_deref q)
        || ltb budget (q.ordered_bytes + q.ready_bytes + payload_length bytes_deref frame) in
      elim (Option-cases (get same_key q.ordered_packets key)) [
        | inr (other, e) ↦ rw e w
        | inl e ↦ elim (Bool-cases full) [
          | inl many ↦ rw (e, many) w
          | inr few ↦
              let room : q.ordered_bytes + q.ready_bytes + payload_length bytes_deref frame
                  ≤ budget =
                ground arith in
              elim (Bool-cases (frame.ordered_frame_index == expected_index)) [
                | inl next ↦
                    rw (e, few, next)
                      (drain_ordered-IsExact (length q.ordered_packets) frame.order_channel _
                        (make_ready-IsExact q frame.order_channel frame w room))
                | inr later ↦ rw (e, few, later) (stored-IsExact q key frame w e room)
              ]
        ]
      ]

  with_complete-IsExact :
      (q : RecvQ bytes_deref) (expected_index : ℕ) (r : Result (Option (FrameSetPacket H)))
      → IsExact q
      → IsExact (with_complete bytes_deref q expected_index r).1
  with_complete-IsExact q expected_index (ok (some frame)) w =
      insert_complete-IsExact q expected_index frame w
  with_complete-IsExact q expected_index (ok none) w = w
  with_complete-IsExact q expected_index (err e) w = w

  pub insert_ordered-IsExact :
      (q : RecvQ bytes_deref) (frame : FrameSetPacket H) (now : ℕ)
      → IsExact q
      → IsExact (insert_ordered bytes_deref q frame now).1
  unfolding insert_ordered
  insert_ordered-IsExact q frame now w =
      let expected = index_of q.last_ordered_indexes frame.order_channel in
      let (complete, fragments) =
        insert_and_take_completed bytes_deref q.fragment_queue frame now in
      elim (Bool-cases (newer expected frame.ordered_frame_index)) [
        | inl old ↦ rw old w
        | inr new ↦
            elim (Bool-cases (leb receive_window (distance frame.ordered_frame_index expected))) [
              | inl far ↦ rw (new, far) w
              | inr close ↦ elim (Bool-cases (is_fragment frame)) [
                | inl part ↦
                    rw (new, close, part)
                      (with_complete-IsExact (record q { fragment_queue = fragments }) expected
                        complete
                        (record {
                          entries_lem = w.entries_lem;
                          ordered_lem = w.ordered_lem;
                          ready_lem = w.ready_lem;
                          limit_lem = w.limit_lem;
                          fragments_lem =
                              (insert_and_take_completed-IsAccounted bytes_deref q.fragment_queue
                                frame now w.fragments_lem).0;
                        }))
                | inr whole ↦ rw (new, close, whole) (insert_complete-IsExact q expected frame w)
              ]
            ]
      ]
