-- ===== src/Send/Acks.antt =====
-- `ack`, `nack` and their ranges of `SendQ`.
use rust_raknet.Prelude.{
  ℕ, zero, suc, ◌+◌, ◌-◌, ◌%◌, ◌^◌, Bool, true, false, not, ◌&&◌, ◌||◌, Option, none, some, List,
  [], ◌∷◌, ◌++◌, length, ltb, leb, ◌==◌, if◌then◌else◌,
}
use rust_raknet.Prelude.Sets.{contains}
use rust_raknet.Sequence.{newer}
use rust_raknet.Packet.Records.{Range}
use rust_raknet.Frame.Packet.{FrameSetPacket, deref}
use rust_raknet.Receive.AckSet.{inside}
use rust_raknet.Send.Timing.{latency_sample}
use rust_raknet.Send.Queue.{SendQ, SentPacket, SharedPayload, frame_budget}
use rust_raknet.Send.Nacks.{nack, nack_all, advance}

-- `payload.remaining.fetch_sub(1)`, which wraps, on the counter at `place`.
unfoldable pub decrement : List SharedPayload → ℕ → List SharedPayload
decrement [] place = []
decrement (c ∷ counters) zero =
    record c { remaining = (c.remaining + 2 ^ 64 - 1) % 2 ^ 64 } ∷ counters
decrement (c ∷ counters) (suc place) = c ∷ decrement counters place

-- The bytes of the counter, if it was at 1.
unfoldable pub last_bytes : List SharedPayload → ℕ → ℕ
last_bytes [] place = 0
last_bytes (c ∷ counters) zero = if c.remaining == 1 then c.bytes else 0
last_bytes (c ∷ counters) (suc place) = last_bytes counters place

-- The variables of the closure of `retain_mut` in `ack_ranges_inner`.
pub record Retained (H : Type 0) : Type 0 where
  pub items : List (SentPacket H)
  pub shared : List SharedPayload
  pub released_bytes : ℕ
  pub newest : ℕ
  pub latency : ℕ × ℕ
  pub previous_sample : Option ℕ

module _ {H : Type 0} (bytes_deref : H → List ℕ) where
  -- The bytes that an acknowledged frame releases, with `FRAME_BUDGET`.
  unfoldable pub released : List SharedPayload → Option ℕ → FrameSetPacket H → ℕ
  unfolding last_bytes
  released counters none frame = length (deref bytes_deref frame.payload) + frame_budget
  released counters (some place) frame = last_bytes counters place + frame_budget

  unfoldable pub counted_down : List SharedPayload → Option ℕ → List SharedPayload
  unfolding decrement
  counted_down counters none = counters
  counted_down counters (some place) = decrement counters place

  -- `item.0.sequence_number == sequence || item.4.contains(&sequence)`
  abbrev pub answers : ℕ → SentPacket H → Bool
  answers sequence item = (item.frame.sequence_number == sequence) || contains item.prior sequence

  -- `position(..)` and `remove(index)`: the first packet that the number belongs to, and the others.
  unfoldable pub take_answered :
      ℕ → List (SentPacket H) → Option (SentPacket H) × List (SentPacket H)
  take_answered sequence [] = (none, [])
  take_answered sequence (item ∷ items) =
      let (found, rest) = take_answered sequence items in
      if answers sequence item then (some item, items) else (found, item ∷ rest)

  -- The packet leaves the queue with its bytes.
  unfoldable pub release : SendQ H → SentPacket H → List (SentPacket H) → SendQ H
  unfolding released counted_down
  release q item rest = record q {
    sent_packet = rest;
    grouped_acks = q.grouped_acks && not (length rest == 0);
    buffered_bytes = q.buffered_bytes - released q.shared item.frame.shared_payload item.frame;
    shared = counted_down q.shared item.frame.shared_payload;
  }

  unfoldable pub update_rto : SendQ H → ℕ → SendQ H
  update_rto q rtt =
      let (srtt, rto) = latency_sample q.srtt rtt in
      record q { srtt = srtt; rto = rto; next_retry = if rto == q.rto then q.next_retry else 0 }

  -- What follows the removal of an acknowledged packet.
  unfoldable pub settle : SendQ H → SentPacket H → ℕ → ℕ → SendQ H
  unfolding advance update_rto
  settle q item sequence tick =
      let q' = if newer sequence q.ack_sequence_number then advance q sequence tick else q in
      if item.retries == 0 then update_rto q' (tick - item.time) else q'

  abbrev pub ack_found : SendQ H → ℕ → ℕ → Option (SentPacket H) × List (SentPacket H) → SendQ H
  ack_found q sequence tick (none, rest) = q
  ack_found q sequence tick (some item, rest) = settle (release q item rest) item sequence tick

  -- `ack` behind its test of `grouped_acks`.
  unfoldable pub ack_one : SendQ H → ℕ → ℕ → SendQ H
  unfolding take_answered release settle
  ack_one q sequence tick = ack_found q sequence tick (take_answered sequence q.sent_packet)

  abbrev pub in_ranges : List Range → ℕ → Bool
  in_ranges [] id = false
  in_ranges (range ∷ ranges) id = inside id range || in_ranges ranges id

  -- `find(..)` over the number of a packet and its history.
  abbrev pub find_in : List Range → List ℕ → Option ℕ
  find_in ranges [] = none
  find_in ranges (id ∷ ids) =
      let rest = find_in ranges ids in if in_ranges ranges id then some id else rest

  abbrev pub acknowledged_id : List Range → SentPacket H → Option ℕ
  acknowledged_id ranges item = find_in ranges (item.frame.sequence_number ∷ item.prior)

  abbrev pub is_sample : Option ℕ → ℕ → Bool
  is_sample none id = false
  is_sample (some previous) id = previous == id

  -- A packet with an acknowledged number.
  unfoldable pub retire : Bool → ℕ → SentPacket H → ℕ → Retained H → Retained H
  unfolding released counted_down
  retire grouped tick item id r =
      let sampled = (item.retries == 0) && (not grouped || not (is_sample r.previous_sample id)) in
      record r {
        shared = counted_down r.shared item.frame.shared_payload;
        released_bytes = r.released_bytes + released r.shared item.frame.shared_payload item.frame;
        newest = if newer id r.newest then id else r.newest;
        latency = if sampled then latency_sample r.latency.0 (tick - item.time) else r.latency;
        previous_sample = if sampled && grouped then some id else r.previous_sample;
      }

  abbrev pub retain_step : Bool → ℕ → SentPacket H → Option ℕ → Retained H → Retained H
  retain_step grouped tick item none r = record r { items = r.items ++ item ∷ [] }
  retain_step grouped tick item (some id) r = retire grouped tick item id r

  -- `self.sent_packet.retain_mut(..)`, with what is kept so far.
  unfoldable pub retain_loop : Bool → List Range → ℕ → List (SentPacket H) → Retained H → Retained H
  unfolding retire
  retain_loop grouped ranges tick [] r = r
  retain_loop grouped ranges tick (item ∷ items) r =
      retain_loop grouped ranges tick items
        (retain_step grouped tick item (acknowledged_id ranges item) r)

  -- `ack_ranges_inner` behind its shortcut.
  unfoldable pub ack_many : SendQ H → Bool → List Range → ℕ → SendQ H
  unfolding retain_loop advance
  ack_many q grouped ranges tick =
      let r = retain_loop grouped ranges tick q.sent_packet (record {
        items = [];
        shared = q.shared;
        released_bytes = 0;
        newest = q.ack_sequence_number;
        latency = (q.srtt, q.rto);
        previous_sample = none;
      }) in
      let q' = record q {
        sent_packet = r.items;
        shared = r.shared;
        buffered_bytes = q.buffered_bytes - r.released_bytes;
        grouped_acks =
            if grouped then q.grouped_acks && not (length r.items == 0) else q.grouped_acks;
        srtt = r.latency.0;
        rto = r.latency.1;
        next_retry = if r.latency.1 == q.rto then q.next_retry else 0;
      } in
      if r.newest == q.ack_sequence_number then q' else advance q' r.newest tick

  unfoldable pub ack : SendQ H → ℕ → ℕ → SendQ H
  unfolding ack_one ack_many
  ack q sequence tick =
      if q.grouped_acks && ltb 1 (length q.sent_packet)
      then ack_many q true ((sequence, sequence) ∷ []) tick
      else ack_one q sequence tick

  -- The only number of one range, where the shortcut of `ack_ranges_inner` takes it.
  abbrev pub single : List Range → Option ℕ
  single ((start, end) ∷ []) = if start == end then some start else none
  single _ = none

  abbrev pub ack_ranges_with : SendQ H → List Range → ℕ → Option ℕ → SendQ H
  ack_ranges_with q ranges tick none = ack_many q q.grouped_acks ranges tick
  ack_ranges_with q ranges tick (some start) =
      if not q.grouped_acks || leb (length q.sent_packet) 1
      then ack q start tick
      else ack_many q q.grouped_acks ranges tick

  unfoldable pub ack_ranges : SendQ H → List Range → ℕ → SendQ H
  unfolding ack ack_many
  ack_ranges q ranges tick = ack_ranges_with q ranges tick (single ranges)

  -- The numbers of sent packets that lie in the ranges.
  unfoldable pub missing_in : List Range → List (SentPacket H) → List ℕ
  missing_in ranges [] = []
  missing_in ranges (item ∷ items) =
      let rest = missing_in ranges items in
      if in_ranges ranges item.frame.sequence_number
      then item.frame.sequence_number ∷ rest
      else rest

  abbrev pub nack_ranges_with : SendQ H → List Range → ℕ → Option ℕ → SendQ H
  nack_ranges_with q ranges tick none = nack_all q (missing_in ranges q.sent_packet) tick
  nack_ranges_with q ranges tick (some start) = nack q start tick

  unfoldable pub nack_ranges : SendQ H → List Range → ℕ → SendQ H
  unfolding nack nack_all missing_in
  nack_ranges q ranges tick = nack_ranges_with q ranges tick (single ranges)
