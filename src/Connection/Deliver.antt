-- ===== src/Connection/Deliver.antt =====
-- What the receiver task of src/socket.rs does with the frames that are ready.
use rust_raknet.Prelude.{
  ℕ, suc, ◌+◌, Bool, true, false, List, [], ◌∷◌, ◌++◌, length, ltb, ◌==◌, if◌then◌else◌,
}
use rust_raknet.Error.{RaknetError, Result, ok, err, socket_error}
use rust_raknet.Bytes.{BytesCrate}
use rust_raknet.Packet.Id.{to_u8, game}
use rust_raknet.Frame.Packet.{FrameSetPacket, deref}
use rust_raknet.Send.Flush.{OutgoingFrames, flush}
use rust_raknet.Connection.State.{Connection, frames, Turn, user_capacity, Out, closing}
use rust_raknet.Connection.Handle.{ControlAction, handshake_done, hang_up, handle}

-- `data.first() == Some(&PacketID::Game.to_u8())`
unfoldable pub is_game : List ℕ → Bool
unfolding to_u8
is_game [] = false
is_game (first ∷ rest) = first == to_u8 game

abbrev pub is_socket_error : RaknetError → Bool
is_socket_error socket_error = true
is_socket_error other = false

module _ (crate : BytesCrate) {H : Type 0} (bytes_deref : H → List ℕ)
    (bytes_slice : H → ℕ → ℕ → H) where
  -- A message for which there is no room in the channel waits.
  abbrev pub hold : Connection bytes_deref → List ℕ → Connection bytes_deref
  hold c message = record c {
    pending_data = c.pending_data ++ (message ∷ []);
    pending_bytes = c.pending_bytes + length message;
  }

  -- Whether the loop over the frames stops, the state, and what leaves.
  abbrev pub Delivered : Type 0
  Delivered = Bool × Out bytes_deref

  -- A message of the game.
  unfoldable pub to_application : Connection bytes_deref → List ℕ → Delivered
  to_application c message =
      if length c.pending_data == 0
      then if c.user_receiving
        then if ltb (length c.user_data) user_capacity
          then (false, (record c { user_data = c.user_data ++ (message ∷ []) }, []))
          else (false, (hold c message, []))
        else (true, (closing c, []))
      else (false, (hold c message, []))

  -- `add_permits(1)` where the handshake is complete.
  abbrev pub permit : ControlAction → Connection bytes_deref → Connection bytes_deref
  permit handshake_done c = record c { handshake_complete = suc c.handshake_complete }
  permit other c = c

  abbrev pub after_transmit :
      Result (Unit {0}) → ControlAction → Connection bytes_deref → OutgoingFrames H → Delivered
  after_transmit (ok done) action c outgoing = (false, (permit action c, frames outgoing ∷ []))
  after_transmit (err e) action c outgoing =
      if is_socket_error e
      then (false, (permit action c, frames outgoing ∷ []))
      else (true, (closing c, frames outgoing ∷ []))

  -- The replies leave before the handshake counts as complete.
  unfoldable pub act : Turn bytes_deref → ControlAction → Connection bytes_deref → Delivered
  act turn action c =
      let (outgoing, sendq) = flush bytes_deref c.sendq turn.now in
      after_transmit (turn.transmits outgoing) action
        (record c { sendq = sendq; idle = if length outgoing.frames == 0 then c.idle else false })
        outgoing

  abbrev pub after_handle :
      Turn bytes_deref → Result ControlAction × Connection bytes_deref → Delivered
  after_handle turn (err e, c) = (false, (c, []))
  after_handle turn (ok hang_up, c) = (true, (closing c, []))
  after_handle turn (ok action, c) = act turn action c

  -- A frame that is ready. Where the connection is closed and the frame could be handled too,
  -- `select!` may take either branch, here the end.
  unfoldable pub deliver_one : Turn bytes_deref → Connection bytes_deref → List ℕ → Delivered
  unfolding is_game to_application act handle
  deliver_one turn c message =
      if is_game message
      then to_application c message
      else if c.closed
      then (true, (c, []))
      else after_handle turn (handle crate bytes_deref bytes_slice c turn.wall message)

  abbrev pub carry : Delivered → (Connection bytes_deref → Out bytes_deref) → Out bytes_deref
  carry (true, out) next = out
  carry (false, (c, sent)) next = let (c', more) = next c in (c', sent ++ more)

  -- `for frame in ready_frames.drain(..)`
  unfoldable pub deliver :
      Turn bytes_deref → List (FrameSetPacket H) → Connection bytes_deref → Out bytes_deref
  unfolding deliver_one deref
  deliver turn [] c = (c, [])
  deliver turn (frame ∷ rest) c =
      carry (deliver_one turn c (deref bytes_deref frame.payload)) (deliver turn rest)
