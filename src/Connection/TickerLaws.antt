-- ===== src/Connection/TickerLaws.antt =====
-- On the rounds of the ticker of a connection.
use rust_raknet.Prelude.{ℕ, ◌-◌, ◌≡◌, refl, inl, inr, Bool, not, ◌||◌, List, Bool-cases, ltb}
use rust_raknet.Bytes.{BytesCrate}
use rust_raknet.Settings.{receive_timeout}
use rust_raknet.Receive.Fragment.{expired}
use rust_raknet.Connection.State.{Connection, Outgoing, Turn}
use rust_raknet.Connection.Ticker.{Ticked, finish, tick}

module _ {H : Type 0} (bytes_deref : H → List ℕ) where
  -- The ends of a connection that a round finds.
  unfoldable pub is_over : Connection bytes_deref → Turn bytes_deref → Bool
  is_over c turn =
      expired bytes_deref c.recvq.fragment_queue turn.instant
      || (ltb receive_timeout (turn.now - c.last_heartbeat_time) || c.closed)

module _ (crate : BytesCrate) {H : Type 0} (bytes_deref : H → List ℕ) where
  abbrev Ends : Bool → Ticked crate bytes_deref → Type 0
  Ends over ticked = (ticked.1.0.closed ≡ over) × (ticked.0.1 ≡ not over)

  finish_lem :
      (c : Connection bytes_deref) (now : ℕ) (idle : Bool) (sent : List (Outgoing bytes_deref))
      → Ends
          (ltb receive_timeout (now - c.last_heartbeat_time) || c.closed)
          (finish crate bytes_deref c now idle sent)
  finish_lem c now idle sent =
      elim (Bool-cases (ltb receive_timeout (now - c.last_heartbeat_time))) [
        | inl e ↦ rw e (refl, refl)
        | inr e ↦ elim (Bool-cases c.closed) [
          | inl f ↦ rw (e, f) (refl, refl)
          | inr f ↦ rw (e, f) (refl, refl)
        ]
      ]

  -- After a round of the ticker the connection is closed exactly if it was, or a fragment is 60
  -- seconds old, or more than 60000 ms have passed since the last datagram; and the ticker goes on
  -- exactly if it is not closed.
  pub tick-closed :
      (c : Connection bytes_deref) (turn : Turn bytes_deref)
      → ((tick crate bytes_deref c turn).1.0.closed ≡ is_over bytes_deref c turn)
        × ((tick crate bytes_deref c turn).0.1 ≡ not (is_over bytes_deref c turn))
  unfolding tick is_over
  tick-closed c turn = elim (Bool-cases (expired bytes_deref c.recvq.fragment_queue turn.instant)) [
    | inl e ↦ rw e (refl, refl)
    | inr e ↦ rw e (finish_lem _ turn.now _ _)
  ]
