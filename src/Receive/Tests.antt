-- ===== src/Receive/Tests.antt =====
-- The theorems on the receiving half at concrete arrivals.
use rust_raknet.Prelude.{◌+◌, ◌≡◌, refl, ◌||◌, [], ◌∷◌, ◌==◌, if◌then◌else◌, arith}
use rust_raknet.Prelude.{ℕ, none, List, ◌≤◌}
use rust_raknet.Prelude.Maps.{get}
use rust_raknet.Sequence.{receive_window, next, newer, distance}
use rust_raknet.Receive.AckSet.{AckSet, hole, retain, missed, joined, insert_ack, insert}
use rust_raknet.Receive.AckSetLaws.{one, times, gap, covered}
use rust_raknet.Receive.AckSetArrivals.{IsAckSet, insert-IsAckSet, covered-insert, times-insert}
use rust_raknet.Frame.Packet.{owned, FrameSetPacket}
use rust_raknet.Frame.Packet.{deref}
use rust_raknet.Receive.Fragment.{
  same, cost, insert_frame, Fragment, FragmentQ, insert_and_take_completed,
}
use rust_raknet.Receive.FragmentTotals.{same-IsEquality, counted}
use rust_raknet.Prelude.MapTotals.{measure_at}
use rust_raknet.Receive.FragmentLaws.{IsAccounted, insert_and_take_completed-IsAccounted}
use rust_raknet.Receive.Queue
use rust_raknet.Receive.Queue.{
  payload_length, flush_into, drain_round, make_ready, take_ordered, RecvQ, RecvQ_default,
  drain_ordered, ordered_count,
}
use rust_raknet.Receive.Channels.{index_of, set_index}
use rust_raknet.Receive.Drain.{Drained, drain_ordered-Drained}
use rust_raknet.Receive.QueueCounts.{IsExact}
use rust_raknet.Receive.QueueExact.{insert-IsExact}
use rust_raknet.Receive.QueueBounds.{ordered_count-insert}

-- Number 5 arrives when 3 is expected and 1 is missing.
abbrev arrived : AckSet
arrived = record { ack = (0, 0) ∷ (2, 2) ∷ []; nack = (1, 1) ∷ []; next_expected = 3 }

insert_ahead :
    insert arrived 5
    ≡ record { ack = (0, 0) ∷ (2, 2) ∷ (5, 5) ∷ []; nack = (1, 1) ∷ (3, 4) ∷ []; next_expected = 6 }
unfolding insert retain hole missed joined insert_ack newer distance next
insert_ahead = refl

arrived-IsAckSet : IsAckSet arrived
arrived-IsAckSet = record {
  next_range = omega arith;
  acks_forward = omega arith;
  nacks_forward = omega arith;
}

insert-IsAckSet_example : IsAckSet (insert arrived 5)
insert-IsAckSet_example = insert-IsAckSet arrived 5 arrived-IsAckSet (omega arith)

covered-insert_example : covered (insert arrived 1).ack 1 ≡ (covered arrived.ack 1 || (1 == 1))
covered-insert_example = covered-insert arrived 1 1 arrived-IsAckSet (omega arith)

times-insert_example :
    times (insert arrived 5).nack 4
    ≡ (if 4 == 5 then 0 else times arrived.nack 4) + one (gap 5 arrived.next_expected 4)
times-insert_example =
    times-insert arrived 5 4 arrived-IsAckSet (omega arith) (omega arith) (omega arith)

abbrev handle : List ℕ → List ℕ
handle content = content

-- The second of two fragments, reliable and ordered.
abbrev second : FrameSetPacket (List ℕ)
second = record {
  sequence_number = 1;
  flags = 0x70;
  length_in_bytes = 2;
  reliable_frame_index = 1;
  sequenced_frame_index = 0;
  ordered_frame_index = 1;
  order_channel = 0;
  compound_size = 2;
  compound_id = 9;
  fragment_index = 1;
  payload = owned (8 ∷ 9 ∷ []);
  shared_payload = none;
}

abbrev first : FrameSetPacket (List ℕ)
first = record second { sequence_number = 0; fragment_index = 0; payload = owned (7 ∷ []) }

-- The second waits in the table while number 0 of the channel is missing, without its flag.
abbrev waiting : RecvQ handle
waiting = record (RecvQ_default handle) {
  ordered_packets = ((0, 1), second) ∷ [];
  ordered_bytes = 2;
}

-- The queue while the first of the two fragments has not arrived.
abbrev one_part : Fragment handle
one_part = record {
  flags = 0x70;
  compound_size = 2;
  ordered_frame_index = 1;
  order_channel = 0;
  frames = (1, second) ∷ [];
  bytes = 130;
  updated = 1000;
}

abbrev incomplete : FragmentQ handle
incomplete = record { fragments = (9, one_part) ∷ []; bytes = 130 }

incomplete-IsAccounted : IsAccounted handle incomplete
unfolding cost deref
incomplete-IsAccounted = record {
  fragments_lem = (refl, refl, tt);
  bytes_lem = refl;
  limit_lem = omega arith;
  count_lem = omega arith;
}

insert_and_take_completed-IsAccounted_example :
    IsAccounted handle (insert_and_take_completed handle incomplete first 1000).1
    × (let between = (insert_frame handle incomplete first 1000).1 in
        measure_at same same-IsEquality (counted handle) (get same between.fragments 9)
        ≤ between.bytes)
insert_and_take_completed-IsAccounted_example =
    insert_and_take_completed-IsAccounted handle incomplete first 1000 incomplete-IsAccounted

-- The queue after number 0 of the channel, for which the second frame waits.
abbrev expecting : RecvQ handle
expecting = record waiting { last_ordered_indexes = record { primary = 1; others = [] } }

drain_ordered-Drained_example : Drained handle 0 expecting (drain_ordered handle 1 0 expecting)
drain_ordered-Drained_example = drain_ordered-Drained handle 1 0 expecting (omega arith)

-- The loop hands the second frame on.
drained_run : (drain_ordered handle 1 0 expecting).ready_ordered ≡ second ∷ []
unfolding drain_ordered drain_round make_ready take_ordered index_of set_index
drained_run = refl

ordered_count-insert_example :
    ordered_count handle (Queue.insert handle waiting second 1000).1 ≤ receive_window
unfolding ordered_count
ordered_count-insert_example = ordered_count-insert handle waiting second 1000 (omega arith)

waiting-IsExact : IsExact handle waiting
unfolding payload_length deref
waiting-IsExact = record {
  entries_lem = (refl, tt, tt);
  ordered_lem = refl;
  ready_lem = refl;
  limit_lem = omega arith;
  fragments_lem = record {
    fragments_lem = tt;
    bytes_lem = refl;
    limit_lem = omega arith;
    count_lem = omega arith;
  };
}

insert-IsExact_example :
    IsExact handle (Queue.insert handle waiting first 1000).1
    × IsExact handle (flush_into handle (Queue.insert handle waiting first 1000).1).1
insert-IsExact_example = insert-IsExact handle waiting first 1000 waiting-IsExact
