-- ===== src/Connection/Agree.antt =====
-- On a client of src/socket.rs and a listener of src/server.rs that open a connection.
use rust_raknet.Prelude.{
  ℕ, ◌≤◌, ◌<◌, ◌^◌, ◌≡◌, refl, ap, ◌∙◌, Bool, true, false, not, ◌&&◌, none, List, [], ◌∷◌, length,
  arith, leb, if◌then◌else◌,
}
use rust_raknet.Prelude.Maps.{get, put, is_some}
use rust_raknet.Prelude.Sets.{contains}
use rust_raknet.Error.{Result, ok}
use rust_raknet.Bytes.{BytesCrate}
use rust_raknet.Datatype.Address.{SocketAddr}
use rust_raknet.Packet.Id.{from-open_connection_request_1, from-open_connection_request_2}
use rust_raknet.Packet.OpenConnection.{
  OpenConnectionRequest2, OpenConnectionReply1, write_packet_connection_open_request_1,
  read_packet_connection_open_request_1, write_packet_connection_open_request_2,
  read_packet_connection_open_request_2, write_packet_connection_open_reply_1,
}
use rust_raknet.Settings.{raknet_protocol_version_list}
use rust_raknet.Server.Address.{same_address}
use rust_raknet.Server.Worker.{Listener, Turn, admit, reserved, try_reserve}
use rust_raknet.Server.Receive.{
  session_of, forgetting, receive, on_request_1, on_request_2, reply_2, on_packet, answer_request_1,
  answer_request_2,
}

-- The size that a listener offers.
abbrev pub offered : Listener → ℕ → ℕ
offered l requested = if leb requested l.maximum_mtu then requested else l.maximum_mtu

pub offered_between :
    (l : Listener) (requested : ℕ)
    → 61 ≤ requested
    → 61 ≤ l.maximum_mtu
    → (61 ≤ offered l requested)
      × (offered l requested ≤ requested)
      × (offered l requested ≤ l.maximum_mtu)
offered_between l requested low enough = (ground arith, ground arith, ground arith)

-- A listener that can answer a first request with `version`, and admit the peer.
pub record IsReady (l : Listener) (client : SocketAddr) : Type 0 where
  pub fresh : session_of l client ≡ none
  pub room : try_reserve l ≡ reserved
  pub few : length l.pending_versions < 4096
  pub least : 61 ≤ l.maximum_mtu
  pub size : l.maximum_mtu < 2 ^ 16
  pub identity : l.guid < 2 ^ 64

-- The listener after the first request.
abbrev pub noted : Listener → Turn → SocketAddr → ℕ → Listener
noted l turn client version = record l {
  pending_versions = put same_address l.pending_versions client (version, turn.now);
}

pub known_version :
    (version : ℕ) → contains raknet_protocol_version_list version ≡ true → version < 2 ^ 8
unfolding contains
known_version version h = ground arith

module _ (crate : BytesCrate) where
  abbrev pub request_1 : ℕ → ℕ → Result (List ℕ)
  request_1 version requested =
      write_packet_connection_open_request_1 crate
        (record { protocol_version = version; mtu_size = requested })

  abbrev pub request_2 : SocketAddr → ℕ → ℕ → Result (List ℕ)
  request_2 server mtu guid =
      write_packet_connection_open_request_2 crate
        (record { address = server; mtu = mtu; guid = guid })

  abbrev pub offer : Listener → ℕ → OpenConnectionReply1
  offer l requested = record { guid = l.guid; use_encryption = 0; mtu_size = offered l requested }

  -- The listener answers the first request.
  pub receive_request_1 :
      (l : Listener) (turn : Turn) (client : SocketAddr) (version requested : ℕ)
      (rest reply : List ℕ)
      → contains raknet_protocol_version_list version ≡ true
      → length l.pending_versions < 4096
      → read_packet_connection_open_request_1 crate (5 ∷ rest)
        ≡ ok (record { protocol_version = version; mtu_size = requested })
      → write_packet_connection_open_reply_1 crate (offer l requested) ≡ ok reply
      → receive crate l turn client (5 ∷ rest) ≡ (noted l turn client version, (client, reply) ∷ [])
  unfolding receive on_request_1
  receive_request_1 l turn client version requested rest reply known few read written =
      let free =
        not_full (length l.pending_versions) (is_some (get same_address l.pending_versions client))
          few in
      ap (λ kind. on_packet crate l turn client (5 ∷ rest) kind) from-open_connection_request_1
      ∙ ap (λ found. answer_request_1 crate l turn client found) read
      ∙ rw (known, free, written) refl
    where
      not_full : (n : ℕ) (b : Bool) → n < 4096 → (leb 4096 n && not b) ≡ false
      not_full n b h = ground arith

  -- The listener answers the second request.
  pub receive_request_2 :
      (l : Listener) (turn : Turn) (client : SocketAddr) (req : OpenConnectionRequest2)
      (rest reply : List ℕ)
      → session_of l client ≡ none
      → try_reserve l ≡ reserved
      → 61 ≤ req.mtu
      → req.mtu ≤ l.maximum_mtu
      → turn.sends ≡ true
      → read_packet_connection_open_request_2 crate (7 ∷ rest) ≡ ok req
      → reply_2 crate l client req.mtu ≡ ok reply
      → receive crate l turn client (7 ∷ rest)
        ≡ (admit (forgetting l client) turn.now client req.guid req.mtu, (client, reply) ∷ [])
  unfolding receive on_request_2 try_reserve reply_2
  receive_request_2 l turn client req rest reply fresh room low high sends read written =
      let fits = both req.mtu l.maximum_mtu low high in
      ap (λ kind. on_packet crate l turn client (7 ∷ rest) kind) from-open_connection_request_2
      ∙ ap (λ found. answer_request_2 crate (forgetting l client) turn client found) read
      ∙ rw (fits, fresh, room, written, sends) refl
    where
      both : (m n : ℕ) → 61 ≤ m → m ≤ n → (leb 61 m && leb m n) ≡ true
      both m n low high = ground arith
