-- ===== src/Send/Nacks.antt =====
-- `nack` of `SendQ`, and what counts as lost when a newer number is acknowledged.
use rust_raknet.Prelude.{
  ℕ, Bool, false, not, ◌&&◌, ◌||◌, List, [], ◌∷◌, ◌++◌, length, drop, ltb, ◌==◌, if◌then◌else◌,
}
use rust_raknet.Sequence.{next, distance}
use rust_raknet.Send.Queue.{SendQ, SentPacket}

-- A prior number joins the history, which holds 64 at most.
unfoldable pub remember : List ℕ → ℕ → List ℕ
remember prior previous = (if length prior == 64 then drop 1 prior else prior) ++ previous ∷ []

-- The packets that are renumbered by a loop over `sent_packet`, the next number, and whether
-- there was one.
pub record Renumbered (H : Type 0) : Type 0 where
  pub items : List (SentPacket H)
  pub sequence_number : ℕ
  pub any : Bool

module _ {H : Type 0} where
  -- A packet that is to be sent again gets a new number.
  unfoldable pub renumbered : SentPacket H → ℕ → SentPacket H
  unfolding remember
  renumbered item sequence = record item {
    frame = record item.frame { sequence_number = sequence };
    in_flight = false;
    prior = remember item.prior item.frame.sequence_number;
  }

  abbrev pub lost : SentPacket H → ℕ → Bool
  lost item sequence = item.in_flight && (item.frame.sequence_number == sequence)

  -- The loop of `nack`.
  unfoldable pub nack_loop : List (SentPacket H) → ℕ → ℕ → ℕ → Renumbered H
  unfolding renumbered
  nack_loop [] sequence tick number = record { items = []; sequence_number = number; any = false }
  nack_loop (item ∷ items) sequence tick number =
      let hit = lost item sequence in
      let rest = nack_loop items sequence tick (if hit then next number else number) in
      record {
        items =
            (if hit then record (renumbered item number) { time = tick } else item) ∷ rest.items;
        sequence_number = rest.sequence_number;
        any = hit || rest.any;
      }

  -- The fields that a loop which renumbers packets sets.
  abbrev pub resend : SendQ H → Renumbered H → SendQ H
  resend q r = record q {
    sent_packet = r.items;
    sequence_number = r.sequence_number;
    coalescing_allowed = q.coalescing_allowed && not r.any;
    coalesce = q.coalesce && not r.any;
    flight_order_dirty = q.flight_order_dirty || r.any;
    retries_pending = q.retries_pending || r.any;
  }

  unfoldable pub nack : SendQ H → ℕ → ℕ → SendQ H
  unfolding nack_loop
  nack q sequence tick = resend q (nack_loop q.sent_packet sequence tick q.sequence_number)

  -- `for id in missing { self.nack(id, tick); }`
  unfoldable pub nack_all : SendQ H → List ℕ → ℕ → SendQ H
  unfolding nack
  nack_all q [] tick = q
  nack_all q (id ∷ missing) tick = nack_all (nack q id tick) missing tick

  -- The numbers between the last acknowledged one and one that is `span` ahead of it.
  unfoldable pub skipped : List (SentPacket H) → ℕ → ℕ → List ℕ
  skipped [] previous span = []
  skipped (item ∷ items) previous span =
      let d = distance item.frame.sequence_number previous in
      let rest = skipped items previous span in
      if ltb 0 d && ltb d span then item.frame.sequence_number ∷ rest else rest

  -- A newer number is acknowledged: what was sent before it counts as lost.
  unfoldable pub advance : SendQ H → ℕ → ℕ → SendQ H
  unfolding skipped nack_all
  advance q newest tick =
      record (nack_all q
        (skipped q.sent_packet q.ack_sequence_number (distance newest q.ack_sequence_number))
        tick) { ack_sequence_number = newest }
