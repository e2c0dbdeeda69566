-- ===== src/Server/Receive.antt =====
-- A turn of the loop of `listen_single` of src/server.rs that receives a datagram.
use rust_raknet.Prelude.{
  ℕ, false, not, ◌&&◌, Option, none, some, List, [], ◌∷◌, length, leb, ◌==◌, if◌then◌else◌,
}
use rust_raknet.Prelude.Maps.{get, put, without, is_some}
use rust_raknet.Prelude.Sets.{contains}
use rust_raknet.Error.{Result, ok, err}
use rust_raknet.Bytes.{BytesCrate}
use rust_raknet.Datatype.Address.{SocketAddr}
use rust_raknet.Packet.Id.{
  PacketId, from, unconnected_ping_1, unconnected_ping_2, open_connection_request_1,
  open_connection_request_2, disconnect,
}
use rust_raknet.Packet.Unconnected.{
  PacketUnconnectedPing, read_packet_ping, write_packet_pong, write_packet_already_connected,
  write_packet_incompatible_protocol_version,
}
use rust_raknet.Packet.OpenConnection.{
  OpenConnectionRequest1, OpenConnectionRequest2, read_packet_connection_open_request_1,
  write_packet_connection_open_reply_1, read_packet_connection_open_request_2,
  write_packet_connection_open_reply_2,
}
use rust_raknet.Settings.{raknet_protocol_version, raknet_protocol_version_list}
use rust_raknet.Server.Address.{same_address}
use rust_raknet.Server.Links.{Sent, accepted, full, no_receiver, Link, try_send, close_link, assign}
use rust_raknet.Server.Cache.{sender, remember, forget}
use rust_raknet.Server.Worker.{
  Listener, SessionSender, Turn, Output, admit, Reserved, reserved, backlog_full, no_listener,
  try_reserve,
}

-- `if let Ok(bytes) = … { socket.send_to(&bytes, addr) }`
abbrev pub to : SocketAddr → Result (List ℕ) → Output
to addr (ok bytes) = (addr, bytes) ∷ []
to addr (err e) = []

abbrev pub forgetting : Listener → SocketAddr → Listener
forgetting l addr = record l { dispatch_cache = forget l.dispatch_cache addr }

abbrev pub session_of : Listener → SocketAddr → Option SessionSender
session_of l addr = get same_address l.sessions addr

-- `sessions.remove(&addr)` and `version_map.remove(&addr)`.
unfoldable pub dropping : Listener → SocketAddr → Listener
unfolding same_address
dropping l addr = record l {
  sessions = without same_address l.sessions addr;
  version_map = without same_address l.version_map addr;
}

-- What `try_send` leaves in the store.
abbrev pub with_link : Listener → ℕ → Link → Listener
with_link l i link = record l { links = assign l.links i link }

-- The `match result`: a session whose receiver is gone is removed.
abbrev pub after_send : Listener → SocketAddr → Sent → Listener
after_send l addr accepted = l
after_send l addr full = l
after_send l addr no_receiver = dropping (forgetting l addr) addr

-- `try_send` on a link of the store, then the `match`.
abbrev pub send_on : Listener → SocketAddr → ℕ → List ℕ → Listener
send_on l addr link datagram =
    let tried = try_send (l.links link) datagram in
    after_send (with_link l link tried.1) addr tried.0

abbrev pub remembering : Listener → SocketAddr → ℕ → Listener
remembering l addr link = record l { dispatch_cache = remember l.dispatch_cache addr link }

abbrev pub through_sessions : Listener → SocketAddr → List ℕ → Option SessionSender → Listener
through_sessions l addr datagram none = l
through_sessions l addr datagram (some session) =
    send_on (remembering l addr session.link) addr session.link datagram

abbrev pub through_cache : Listener → SocketAddr → List ℕ → Option ℕ → Listener
through_cache l addr datagram (some link) = send_on l addr link datagram
through_cache l addr datagram none =
    through_sessions (forgetting l addr) addr datagram (session_of l addr)

-- The last arm: a datagram of a connection.
unfoldable pub dispatch : Listener → SocketAddr → List ℕ → Listener
unfolding sender remember forget try_send assign dropping same_address
dispatch l addr datagram = through_cache l addr datagram (sender l.dispatch_cache l.links addr)

abbrev pub ending : Listener → SocketAddr → Option SessionSender → Listener
ending l addr none = l
ending l addr (some session) = dropping (record l { links = close_link l.links session.link }) addr

-- The arm of `Disconnect`.
unfoldable pub on_disconnect : Listener → SocketAddr → Listener
unfolding forget close_link dropping same_address
on_disconnect l addr = ending (forgetting l addr) addr (session_of l addr)

module _ (crate : BytesCrate) where
  abbrev pub pong : Listener → Turn → SocketAddr → Result PacketUnconnectedPing → Output
  pong l turn addr (err e) = []
  pong l turn addr (ok ping) =
      to addr (write_packet_pong crate (record { time = turn.wall; guid = l.guid; motd = l.motd }))

  -- The arms of both pings.
  unfoldable pub on_ping : Listener → Turn → SocketAddr → List ℕ → Output
  on_ping l turn addr buf = pong l turn addr (read_packet_ping crate buf)

  abbrev pub answer_request_1 :
      Listener → Turn → SocketAddr → Result OpenConnectionRequest1 → Listener × Output
  answer_request_1 l turn addr (err e) = (l, [])
  answer_request_1 l turn addr (ok req) =
      if not (contains raknet_protocol_version_list req.protocol_version)
      then (
        l,
        to addr (
            write_packet_incompatible_protocol_version crate
              (record { server_protocol = raknet_protocol_version; server_guid = l.guid })),
      )
      else if leb 4096 (length l.pending_versions)
          && not (is_some (get same_address l.pending_versions addr))
      then (l, [])
      else (
        record l {
          pending_versions =
              put same_address l.pending_versions addr (req.protocol_version, turn.now);
        },
        to addr (
            write_packet_connection_open_reply_1 crate (record {
              guid = l.guid;
              use_encryption = 0;
              mtu_size = if leb req.mtu_size l.maximum_mtu then req.mtu_size else l.maximum_mtu;
            })),
      )

  unfoldable pub on_request_1 : Listener → Turn → SocketAddr → List ℕ → Listener × Output
  unfolding contains same_address
  on_request_1 l turn addr buf =
      answer_request_1 l turn addr (read_packet_connection_open_request_1 crate buf)

  -- `write_packet_connection_open_reply_2` of the agreed size.
  unfoldable pub reply_2 : Listener → SocketAddr → ℕ → Result (List ℕ)
  reply_2 l addr mtu =
      write_packet_connection_open_reply_2 crate
        (record { guid = l.guid; address = addr; mtu = mtu; encryption_enabled = 0 })

  unfoldable pub already : Listener → Result (List ℕ)
  already l = write_packet_already_connected crate (record { guid = l.guid })

  -- From the reply on. Where it is not sent, the request has no other effect.
  abbrev pub acknowledge :
      Listener → Turn → SocketAddr → OpenConnectionRequest2 → Result (List ℕ) → Listener × Output
  acknowledge l turn addr req (err e) = (l, [])
  acknowledge l turn addr req (ok reply) =
      if turn.sends
      then (admit l turn.now addr req.guid req.mtu, (addr, reply) ∷ [])
      else (l, (addr, reply) ∷ [])

  abbrev pub with_slot :
      Listener → Turn → SocketAddr → OpenConnectionRequest2 → Reserved → Listener × Output
  with_slot l turn addr req reserved = acknowledge l turn addr req (reply_2 l addr req.mtu)
  with_slot l turn addr req backlog_full = (l, [])
  with_slot l turn addr req no_listener = (record l { running = false }, [])

  -- With the session of the peer, if there is one.
  abbrev pub negotiate :
      Listener
      → Turn
      → SocketAddr
      → OpenConnectionRequest2
      → Option SessionSender
      → Listener × Output
  negotiate l turn addr req (some session) =
      (l, to addr (if session.guid == req.guid then reply_2 l addr session.mtu else already l))
  negotiate l turn addr req none = with_slot l turn addr req (try_reserve l)

  abbrev pub answer_request_2 :
      Listener → Turn → SocketAddr → Result OpenConnectionRequest2 → Listener × Output
  answer_request_2 l turn addr (err e) = (l, [])
  answer_request_2 l turn addr (ok req) =
      if leb 61 req.mtu && leb req.mtu l.maximum_mtu
      then negotiate l turn addr req (session_of l addr)
      else (l, [])

  unfoldable pub on_request_2 : Listener → Turn → SocketAddr → List ℕ → Listener × Output
  unfolding forget try_reserve admit reply_2 already same_address
  on_request_2 l turn addr buf =
      answer_request_2 (forgetting l addr) turn addr
        (read_packet_connection_open_request_2 crate buf)

  -- The `match cur_status`.
  abbrev pub on_packet : Listener → Turn → SocketAddr → List ℕ → Result PacketId → Listener × Output
  on_packet l turn addr buf (err e) = (l, [])
  on_packet l turn addr buf (ok unconnected_ping_1) = (l, on_ping l turn addr buf)
  on_packet l turn addr buf (ok unconnected_ping_2) = (l, on_ping l turn addr buf)
  on_packet l turn addr buf (ok open_connection_request_1) = on_request_1 l turn addr buf
  on_packet l turn addr buf (ok open_connection_request_2) = on_request_2 l turn addr buf
  on_packet l turn addr buf (ok disconnect) = (on_disconnect l addr, [])
  on_packet l turn addr buf (ok other) = (dispatch l addr buf, [])

  -- A turn with a datagram of any size.
  unfoldable pub receive : Listener → Turn → SocketAddr → List ℕ → Listener × Output
  unfolding on_ping on_request_1 on_request_2 on_disconnect dispatch from
  receive l turn addr [] = (l, [])
  receive l turn addr (first ∷ rest) = on_packet l turn addr (first ∷ rest) (from first)
