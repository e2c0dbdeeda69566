-- ===== src/Send/Tick.antt =====
-- `tick` of `SendQ`: packets whose timeout is over are to be sent again.
use rust_raknet.Prelude.{
  ℕ, ◌+◌, Bool, false, not, ◌&&◌, ◌||◌, List, [], ◌∷◌, min, ltb, leb, if◌then◌else◌,
}
use rust_raknet.Sequence.{next}
use rust_raknet.Send.Timing.{i64_max, saturating_add, retry_timeout}
use rust_raknet.Send.Queue.{SendQ, SentPacket}
use rust_raknet.Send.Nacks.{Renumbered, renumbered, resend}

-- The variables of the loop of `tick`.
pub record Scan (H : Type 0) : Type 0 where
  pub renumbered : Renumbered H
  pub next_retry : ℕ

module _ {H : Type 0} where
  -- `tick - p.2 >= cur_rto`
  abbrev pub expired : ℕ → ℕ → SentPacket H → Bool
  expired rto now item = leb (item.time + retry_timeout rto item.retries) now

  unfoldable pub overdue : ℕ → ℕ → SentPacket H → Bool
  overdue rto now item = item.in_flight && expired rto now item

  -- When a packet that is in flight is due.
  abbrev pub due : ℕ → SentPacket H → ℕ
  due rto item = saturating_add item.time (retry_timeout rto item.retries)

  -- The loop of `tick`, with `next_retry` and the next number so far.
  unfoldable pub scan : ℕ → ℕ → List (SentPacket H) → ℕ → ℕ → Scan H
  scan rto now [] number next_retry = record {
    renumbered = record { items = []; sequence_number = number; any = false };
    next_retry = next_retry;
  }
  scan rto now (item ∷ items) number next_retry =
      let hit = overdue rto now item in
      let rest =
        scan rto now items (if hit then next number else number)
          (if item.in_flight && not hit then min next_retry (due rto item) else next_retry) in
      record {
        renumbered = record {
          items = (if hit then renumbered item number else item) ∷ rest.renumbered.items;
          sequence_number = rest.renumbered.sequence_number;
          any = hit || rest.renumbered.any;
        };
        next_retry = rest.next_retry;
      }

  -- The scan of all packets.
  unfoldable pub tick_all : SendQ H → ℕ → SendQ H
  unfolding scan overdue
  tick_all q now =
      let s = scan q.rto now q.sent_packet q.sequence_number i64_max in
      record (resend q s.renumbered) { next_retry = s.next_retry }

  unfoldable pub tick : SendQ H → ℕ → SendQ H
  unfolding tick_all
  tick q now = if ltb now q.next_retry then q else tick_all q now
