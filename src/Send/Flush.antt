-- ===== src/Send/Flush.antt =====
-- `tick` and `flush` of `SendQ`.
use rust_raknet.Prelude.{
  ℕ, zero, suc, ◌+◌, ◌-◌, ◌^◌, Bool, true, false, not, ◌&&◌, ◌||◌, Option, none, some, List, [],
  ◌∷◌, ◌++◌, length, min, ltb, leb, ◌==◌, if◌then◌else◌,
}
use rust_raknet.Prelude.Maps.{is_some}
use rust_raknet.Error.{Result, ok, err}
use rust_raknet.Sequence.{next}
use rust_raknet.Frame.Reliability.{Reliability}
use rust_raknet.Frame.Packet.{FrameSetPacket, deref, is_fragment, reliability, is_reliable, size}
use rust_raknet.Receive.Channels.{or_zero}
use rust_raknet.Send.Timing.{saturating_add, retry_timeout}
use rust_raknet.Send.Queue.{
  SendQ, SentPacket, max_in_flight_packets, max_coalesced_frames, frame_budget, is_ordered_kind,
}
use rust_raknet.Send.Tick.{tick}

-- `OutgoingFrames`
pub record OutgoingFrames (H : Type 0) : Type 0 where
  pub frames : List (FrameSetPacket H)
  pub coalesced : Bool

module _ {H : Type 0} where
  -- `sort_unstable_by_key(|packet| packet.0.sequence_number)`, as one that is stable.
  unfoldable pub insert_sorted : SentPacket H → List (SentPacket H) → List (SentPacket H)
  insert_sorted item [] = item ∷ []
  insert_sorted item (other ∷ items) =
      let rest = insert_sorted item items in
      if leb item.frame.sequence_number other.frame.sequence_number
      then item ∷ other ∷ items
      else other ∷ rest

  unfoldable pub sorted : List (SentPacket H) → List (SentPacket H)
  unfolding insert_sorted
  sorted [] = []
  sorted (item ∷ items) = insert_sorted item (sorted items)

  unfoldable pub sort_flight : SendQ H → SendQ H
  unfolding sorted
  sort_flight q =
      if q.flight_order_dirty
      then record q { sent_packet = sorted q.sent_packet; flight_order_dirty = false }
      else q

  -- A packet that is sent again: its count of retries saturates at `u32::MAX`.
  unfoldable pub sent_again : ℕ → SentPacket H → SentPacket H
  sent_again now item = record item {
    in_flight = true;
    time = now;
    retries = min (item.retries + 1) (2 ^ 32 - 1);
  }

  unfoldable pub resent_items : ℕ → List (SentPacket H) → List (SentPacket H)
  unfolding sent_again
  resent_items now [] = []
  resent_items now (item ∷ items) =
      (if item.in_flight then item else sent_again now item) ∷ resent_items now items

  -- The frames that the loop of `flush` pushes for them.
  unfoldable pub resent_frames : List (SentPacket H) → List (FrameSetPacket H)
  resent_frames [] = []
  resent_frames (item ∷ items) =
      let rest = resent_frames items in if item.in_flight then rest else item.frame ∷ rest

  unfoldable pub resent_retry : ℕ → ℕ → List (SentPacket H) → ℕ → ℕ
  unfolding sent_again
  resent_retry rto now [] next_retry = next_retry
  resent_retry rto now (item ∷ items) next_retry = resent_retry rto now items (
      if item.in_flight
      then next_retry
      else min next_retry (saturating_add now (retry_timeout rto (sent_again now item).retries)))

  -- `if self.retries_pending { .. }`, with the frames that it pushes.
  unfoldable pub resend_pending : SendQ H → ℕ → SendQ H × List (FrameSetPacket H)
  unfolding resent_items resent_frames resent_retry
  resend_pending q now =
      if q.retries_pending
      then (
        record q {
          sent_packet = resent_items now q.sent_packet;
          next_retry = resent_retry q.rto now q.sent_packet q.next_retry;
          retries_pending = false;
        },
        resent_frames q.sent_packet,
      )
      else (q, [])

-- The variables of the loop over the queue.
pub record Burst (H : Type 0) : Type 0 where
  pub queue : SendQ H
  pub output : OutgoingFrames H
  pub group_sequence : Option ℕ
  pub group_bytes : ℕ
  pub group_frames : ℕ

abbrev pub or_false : Result Bool → Bool
or_false (ok b) = b
or_false (err e) = false

abbrev pub is_ordered_result : Result Reliability → Bool
is_ordered_result (ok r) = is_ordered_kind r
is_ordered_result (err e) = false

-- `expect`: a queued frame has a reliability.
abbrev pub expect : Result ℕ → ℕ
expect (ok n) = n
expect (err e) = 0

abbrev pub last_sequence : {H : Type 0} → List (SentPacket H) → ℕ
last_sequence [] = 0
last_sequence (item ∷ []) = item.frame.sequence_number
last_sequence (item ∷ items) = last_sequence items

module _ {H : Type 0} where
  -- A frame with a number of its own.
  abbrev pub own_number : Burst H → FrameSetPacket H → Burst H × FrameSetPacket H
  own_number b packet = (
    record b { queue = record b.queue { sequence_number = next b.queue.sequence_number } },
    record packet { sequence_number = b.queue.sequence_number },
  )

  abbrev pub pushed : OutgoingFrames H → FrameSetPacket H → OutgoingFrames H
  pushed output packet = record output { frames = output.frames ++ packet ∷ [] }

  -- A reliable frame goes in flight.
  unfoldable pub send_reliable : ℕ → Burst H × FrameSetPacket H → Burst H
  send_reliable now (b, packet) = record b {
    output = pushed b.output packet;
    queue = record b.queue {
      flight_order_dirty =
          b.queue.flight_order_dirty
          || ltb packet.sequence_number (last_sequence b.queue.sent_packet);
      sent_packet =
          b.queue.sent_packet
          ++ record { frame = packet; in_flight = true; time = now; retries = 0; prior = [] } ∷ [];
      next_retry = min b.queue.next_retry (saturating_add now b.queue.rto);
    };
  }

  abbrev pub window_full : SendQ H → Bool
  window_full q = leb max_in_flight_packets (length q.sent_packet)

module _ {H : Type 0} (bytes_deref : H → List ℕ) where
  -- `packet._size()` less the four bytes that a datagram has once.
  abbrev pub frame_bytes : FrameSetPacket H → ℕ
  frame_bytes packet = expect (size bytes_deref packet) - 4

  abbrev pub packable : FrameSetPacket H → Bool
  packable packet = is_ordered_result (reliability packet) && not (is_fragment packet)

  -- Whether the frame joins the datagram of the frame before.
  unfoldable pub joins : Burst H → FrameSetPacket H → Bool
  joins b packet =
      packable packet
      && is_some b.group_sequence
      && ltb b.group_frames max_coalesced_frames
      && leb (b.group_bytes + frame_bytes packet) (b.queue.mtu - 28)

  -- The number of a frame, and the group that it joins or opens.
  unfoldable pub numbered : Burst H → FrameSetPacket H → Burst H × FrameSetPacket H
  unfolding joins
  numbered b packet =
      if not b.queue.coalesce
      then own_number b packet
      else if joins b packet
      then (
        record b {
          queue = record b.queue { grouped_acks = true };
          output = record b.output { coalesced = true };
          group_bytes = b.group_bytes + frame_bytes packet;
          group_frames = b.group_frames + 1;
        },
        record packet { sequence_number = or_zero b.group_sequence },
      )
      else (
        record b {
          queue = record b.queue { sequence_number = next b.queue.sequence_number };
          group_sequence = if packable packet then some b.queue.sequence_number else none;
          group_bytes = 4 + frame_bytes packet;
          group_frames = 1;
        },
        record packet { sequence_number = b.queue.sequence_number },
      )

  -- An unreliable frame leaves the queue.
  unfoldable pub send_unreliable : Burst H × FrameSetPacket H → Burst H
  send_unreliable (b, packet) = record b {
    output = pushed b.output packet;
    queue = record b.queue {
      queued_unreliable = b.queue.queued_unreliable - 1;
      buffered_bytes =
          b.queue.buffered_bytes - (length (deref bytes_deref packet.payload) + frame_budget);
    };
  }

  -- A round of the loop, on the frame in front; `rest` is the queue without it.
  unfoldable pub send_front : ℕ → Burst H → FrameSetPacket H → List (FrameSetPacket H) → Burst H
  unfolding numbered send_reliable send_unreliable
  send_front now b packet rest =
      let popped = record b { queue = record b.queue { packets = rest } } in
      if or_false (is_reliable packet)
      then (if window_full b.queue
          then record b { queue = record b.queue { packets = rest ++ packet ∷ [] } }
          else send_reliable now (numbered popped packet))
      else send_unreliable (numbered popped packet)

  abbrev pub send_next : ℕ → Burst H → List (FrameSetPacket H) → (Burst H → Burst H) → Burst H
  send_next now b [] go_on = b
  send_next now b (packet ∷ rest) go_on = go_on (send_front now b packet rest)

  -- `for _ in 0..queued_count`
  unfoldable pub send_loop : ℕ → ℕ → Burst H → Burst H
  unfolding send_front
  send_loop zero now b = b
  send_loop (suc rounds) now b =
      let round = send_next now b b.queue.packets (send_loop rounds now) in
      if window_full b.queue && (b.queue.queued_unreliable == 0) then b else round

  unfoldable pub flush : SendQ H → ℕ → OutgoingFrames H × SendQ H
  unfolding tick sort_flight resend_pending send_loop
  flush q now =
      let (resending, frames) = resend_pending (sort_flight (tick q now)) now in
      let b = send_loop (length resending.packets) now (record {
        queue = resending;
        output = record { frames = frames; coalesced = false };
        group_sequence = none;
        group_bytes = 0;
        group_frames = 0;
      }) in
      (b.output, b.queue)
