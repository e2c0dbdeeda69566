-- ===== src/Connection/Ticker.antt =====
-- The ticker of a connection: the loop of `start_tick` of src/socket.rs, without the features.
use rust_raknet.Prelude.{
  ℕ, ◌-◌, Bool, true, false, not, ◌&&◌, List, [], ◌∷◌, ◌++◌, map, replicate, ltb, leb,
  if◌then◌else◌,
}
use rust_raknet.Bytes.{BytesCrate}
use rust_raknet.Packet.Id.{to_u8, nack, disconnect}
use rust_raknet.Packet.Records.{Range, write_control_ranges_into}
use rust_raknet.Settings.{receive_timeout}
use rust_raknet.Receive.AckSet.{take_nack_into}
use rust_raknet.Receive.Fragment.{expired}
use rust_raknet.Receive.Queue.{needs_maintenance}
use rust_raknet.Send.Queue.{is_empty}
use rust_raknet.Send.Timing.{default_timeout_mills}
use rust_raknet.Send.Flush.{flush}
use rust_raknet.Connection.State.{Connection, Outgoing, alone, datagram, Turn, Out, closing}
use rust_raknet.Connection.Receiver.{written}

abbrev pub maintenance_idle_millis : ℕ
maintenance_idle_millis = 500

-- The time to the next round, after a round that found the connection idle or not.
unfoldable pub delay : Bool → ℕ → ℕ → ℕ
delay idle now heartbeat =
    if idle
    then if leb 1 (receive_timeout - (now - heartbeat))
      then receive_timeout - (now - heartbeat)
      else 1
    else default_timeout_mills

module _ (crate : BytesCrate) {H : Type 0} (bytes_deref : H → List ℕ) where
  -- Whether a round finds the connection idle, whether the loop goes on, the state, and what
  -- leaves.
  abbrev pub Ticked : Type 0
  Ticked = (Bool × Bool) × Out bytes_deref

  unfoldable pub is_quiet : Connection bytes_deref → ℕ → Bool
  is_quiet c now = c.idle_enabled && leb maintenance_idle_millis (now - c.last_heartbeat_time)

  abbrev pub nack_datagrams : List Range → List (Outgoing bytes_deref)
  nack_datagrams [] = []
  nack_datagrams (range ∷ ranges) =
      written crate bytes_deref (λ h start end. h)
        (write_control_ranges_into crate nack (range ∷ ranges) [])

  -- The end of a round: silence, or a connection that was closed.
  abbrev pub finish : Connection bytes_deref → ℕ → Bool → List (Outgoing bytes_deref) → Ticked
  finish c now idle sent =
      if ltb receive_timeout (now - c.last_heartbeat_time)
      then ((idle, false), (closing c, sent))
      else if c.closed
      then ((idle, false), (c, sent ++ replicate 10 (datagram (to_u8 disconnect ∷ []))))
      else ((idle, true), (c, sent))

  abbrev pub maintain : Connection bytes_deref → Turn bytes_deref → Bool → Ticked
  maintain c turn quiet =
      let (nacks, ackset) = take_nack_into c.recvq.sequence_number_ackset in
      let recvq = record c.recvq { sequence_number_ackset = ackset } in
      let (outgoing, sendq) = flush bytes_deref c.sendq turn.now in
      let idle = quiet && not (needs_maintenance bytes_deref recvq) && is_empty sendq in
      finish (record c { recvq = recvq; sendq = sendq; idle = if idle then c.idle else false })
        turn.now idle (nack_datagrams nacks ++ map alone outgoing.frames)

  abbrev pub marked : Connection bytes_deref → Bool → Connection bytes_deref
  marked c quiet = record c { idle = if quiet then true else c.idle }

  -- A round of the loop.
  unfoldable pub tick : Connection bytes_deref → Turn bytes_deref → Ticked
  unfolding is_quiet to_u8
  tick c turn =
      if expired bytes_deref c.recvq.fragment_queue turn.instant
      then ((false, false), (closing (marked c (is_quiet c turn.now)), []))
      else maintain (marked c (is_quiet c turn.now)) turn (is_quiet c turn.now)
