-- ===== src/Connection/Handle.antt =====
-- `RaknetSocket::handle` of src/socket.rs: a message that is not of the game.
use rust_raknet.Prelude.{ℕ, List, [], ◌∷◌, ◌++◌, if◌then◌else◌}
use rust_raknet.Prelude.Int.{ℤ}
use rust_raknet.Error.{Result, ok, err, and_then, packet_header_error}
use rust_raknet.Bytes.{BytesCrate}
use rust_raknet.Packet.Id.{
  PacketId, from, connection_request, connection_request_accepted, new_incoming_connection,
  connected_ping, connected_pong, disconnect,
}
use rust_raknet.Packet.Connected.{
  ConnectionRequest, ConnectionRequestAccepted, NewIncomingConnection, ConnectedPing,
  read_packet_connection_request, write_packet_connection_request_accepted,
  read_packet_connection_request_accepted, write_packet_new_incoming_connection,
  read_packet_new_incoming_connection, read_packet_connected_ping, write_packet_connected_ping,
  write_packet_connected_pong,
}
use rust_raknet.Frame.Reliability.{Reliability, unreliable, reliable_ordered}
use rust_raknet.Send.Queue.{SendQ}
use rust_raknet.Send.Insert.{insert}
use rust_raknet.Connection.State.{Connection}

pub data ControlAction : Type 0 where
  carry_on handshake_done hang_up : ControlAction

module _ (crate : BytesCrate) {H : Type 0} (bytes_deref : H → List ℕ)
    (bytes_slice : H → ℕ → ℕ → H) where
  abbrev pub Handled : Type 0
  Handled = Result ControlAction × Connection bytes_deref

  -- `let buf = written?; sendq.insert(reliability, &buf)?; Ok(action)`
  abbrev pub queued : Connection bytes_deref → ControlAction → Result (SendQ H) → Handled
  queued c action (err e) = (err e, c)
  queued c action (ok sendq) = (ok action, record c { sendq = sendq })

  abbrev pub reply :
      Connection bytes_deref → Reliability → ControlAction → Result (List ℕ) → Handled
  reply c reliability action written =
      queued c action
        (and_then written λ buf. insert bytes_deref bytes_slice c.sendq reliability buf)

  -- The next reply, where the first is queued.
  abbrev pub then_reply : Handled → (Connection bytes_deref → Handled) → Handled
  then_reply (err e, c) next = (err e, c)
  then_reply (ok action, c) next = next c

  abbrev pub on_request : Connection bytes_deref → ℤ → Result ConnectionRequest → Handled
  on_request c wall (err e) = (err e, c)
  on_request c wall (ok packet) = reply c reliable_ordered carry_on (
      write_packet_connection_request_accepted crate (record {
        client_address = c.peer_addr;
        system_index = 0;
        request_timestamp = packet.time;
        accepted_timestamp = wall;
      }))

  abbrev pub on_accepted : Connection bytes_deref → ℤ → Result ConnectionRequestAccepted → Handled
  on_accepted c wall (err e) = (err e, c)
  on_accepted c wall (ok packet) =
      then_reply
        (reply c reliable_ordered carry_on (
          write_packet_new_incoming_connection crate (record {
            server_address = c.local_addr;
            request_timestamp = packet.request_timestamp;
            accepted_timestamp = wall;
          })))
        (λ c.
          reply c unreliable handshake_done
            (write_packet_connected_ping crate (record { client_timestamp = wall })))

  abbrev pub on_incoming : Connection bytes_deref → Result NewIncomingConnection → Handled
  on_incoming c (err e) = (err e, c)
  on_incoming c (ok packet) = (ok handshake_done, c)

  abbrev pub on_ping : Connection bytes_deref → ℤ → Result ConnectedPing → Handled
  on_ping c wall (err e) = (err e, c)
  on_ping c wall (ok packet) = reply c unreliable carry_on (
      write_packet_connected_pong crate
        (record { client_timestamp = packet.client_timestamp; server_timestamp = wall }))

  -- `user_data_sender.send`, which waits for room: then the message is the last of the channel.
  abbrev pub to_user : Connection bytes_deref → List ℕ → Handled
  to_user c message =
      if c.user_receiving
      then (ok carry_on, record c { user_data = c.user_data ++ (message ∷ []) })
      else (ok hang_up, c)

  -- The `match`.
  abbrev pub handle_as : Connection bytes_deref → ℤ → List ℕ → Result PacketId → Handled
  handle_as c wall message (err e) = (err e, c)
  handle_as c wall message (ok connection_request) =
      on_request c wall (read_packet_connection_request crate message)
  handle_as c wall message (ok connection_request_accepted) =
      on_accepted c wall (read_packet_connection_request_accepted crate message)
  handle_as c wall message (ok new_incoming_connection) =
      on_incoming c (read_packet_new_incoming_connection crate message)
  handle_as c wall message (ok connected_ping) =
      on_ping c wall (read_packet_connected_ping crate message)
  handle_as c wall message (ok connected_pong) = (ok carry_on, c)
  handle_as c wall message (ok disconnect) = (ok hang_up, c)
  handle_as c wall message (ok other) = to_user c message

  -- The message is the payload of a frame; both clocks of one call are read at once.
  unfoldable pub handle : Connection bytes_deref → ℤ → List ℕ → Handled
  unfolding from
  handle c wall [] = (err packet_header_error, c)
  handle c wall (first ∷ rest) = handle_as c wall (first ∷ rest) (from first)
