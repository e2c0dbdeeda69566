-- ===== src/Server/Tests.antt =====
-- The theorems on the listener at a concrete listener, over the reference instance of `bytes`.
use rust_raknet.Prelude.{
  ℕ, ◌≡◌, refl, Bool, true, false, Option, none, some, List, [], ◌∷◌, ◌++◌, ◌<◌, length, arith,
}
use rust_raknet.Prelude.Int.{pos}
use rust_raknet.Error.{ok}
use rust_raknet.Bytes.Reference.{reference}
use rust_raknet.Datatype.Address.{SocketAddr, v4, v6}
use rust_raknet.Packet.Id.{from}
use rust_raknet.Packet.OpenConnection.{
  OpenConnectionRequest2, read_packet_connection_open_request_2,
  write_packet_connection_open_request_2,
}
use rust_raknet.Prelude.Maps.{get}
use rust_raknet.Server.Address.{same_address}
use rust_raknet.Server.Links.{capacity, assign}
use rust_raknet.Server.Worker.{Listener, SessionSender, Turn, Output, new, admit, try_reserve}
use rust_raknet.Server.Receive.{session_of, receive, on_request_2, dispatch, reply_2}
use rust_raknet.Server.Upkeep.{collect, shut_down}
use rust_raknet.Server.Sound.{IsSound}
use rust_raknet.Server.SoundAdmit.{admit-IsSound}
use rust_raknet.Server.Steps.{received, start, then_by, new-IsSound, Listener-IsSound}
use rust_raknet.Server.Transparent.{uncached, seen, receive-uncached}
use rust_raknet.Server.Retransmit.{request_2_again}
use rust_raknet.Server.Closing.{shut_down_lem, collect-session_of}
use rust_raknet.Server.Deliver.{dispatch-links}

abbrev peer : SocketAddr
peer = v4 (127 ∷ 0 ∷ 0 ∷ 1 ∷ []) 5000

abbrev listener : Listener
listener = new 7 (0x6d ∷ []) 1400 2

abbrev turn : Turn
turn = record { wall = pos 5; now = 9; sends = true }

abbrev request : OpenConnectionRequest2
request = record { address = peer; mtu = 1000; guid = 42 }

abbrev request_bytes : List ℕ
request_bytes =
    7 ∷ 0 ∷ 255 ∷ 255 ∷ 0 ∷ 254 ∷ 254 ∷ 254 ∷ 254 ∷ 253 ∷ 253 ∷ 253 ∷ 253 ∷ 18 ∷ 52 ∷ 86 ∷ 120 ∷ 4
    ∷ 128 ∷ 255 ∷ 255 ∷ 254 ∷ 19 ∷ 136 ∷ 3 ∷ 232 ∷ 0 ∷ 0 ∷ 0 ∷ 0 ∷ 0 ∷ 0 ∷ 0 ∷ 42 ∷ []

request_read : read_packet_connection_open_request_2 reference request_bytes ≡ ok request
unfolding read_packet_connection_open_request_2 reference rust_raknet.Prelude.State.◌>>=◌
    rust_raknet.Datatype.Reader.read_u8 rust_raknet.Packet.Shared.read_magic
    rust_raknet.Datatype.Reader.read_magic rust_raknet.Prelude.State.refuse
    rust_raknet.Datatype.Reader.read rust_raknet.Prelude.State.pure
    rust_raknet.Datatype.Reader.bytes_eq rust_raknet.Datatype.Address.read_address
    rust_raknet.Bytes.Words.of_be rust_raknet.Datatype.Reader.read_u16
    rust_raknet.Datatype.Reader.read_u64
request_read = refl

abbrev reply_bytes : List ℕ
reply_bytes =
    8 ∷ 0 ∷ 255 ∷ 255 ∷ 0 ∷ 254 ∷ 254 ∷ 254 ∷ 254 ∷ 253 ∷ 253 ∷ 253 ∷ 253 ∷ 18 ∷ 52 ∷ 86 ∷ 120 ∷ 0
    ∷ 0 ∷ 0 ∷ 0 ∷ 0 ∷ 0 ∷ 0 ∷ 7 ∷ 4 ∷ 128 ∷ 255 ∷ 255 ∷ 254 ∷ 19 ∷ 136 ∷ 3 ∷ 232 ∷ 0 ∷ []

abbrev requested : Listener × Output
requested = on_request_2 reference listener turn peer request_bytes

abbrev connected : Listener
connected = admit listener 9 peer 42 1000

abbrev session : SessionSender
session = record { link = 0; guid = 42; mtu = 1000 }

connected-session : session_of connected peer ≡ some session
unfolding admit new
connected-session = refl

connected-IsSound : IsSound connected
unfolding new
connected-IsSound =
    admit-IsSound listener 9 peer 42 1000 refl (omega arith) (omega arith) (omega arith)
      (new-IsSound 7 (0x6d ∷ []) 1400 2)

Listener-IsSound_example : IsSound (receive reference listener turn peer request_bytes).0
unfolding new
Listener-IsSound_example =
    Listener-IsSound reference 7 (0x6d ∷ []) 1400 2
      (receive reference listener turn peer request_bytes).0
      (then_by start (received listener turn peer request_bytes refl))

receive-uncached_example :
    seen (receive reference connected turn peer (0x84 ∷ 1 ∷ []))
    ≡ seen (receive reference (uncached connected) turn peer (0x84 ∷ 1 ∷ []))
receive-uncached_example =
    receive-uncached reference connected turn peer (0x84 ∷ 1 ∷ []) connected-IsSound

reply_written : reply_2 reference listener peer 1000 ≡ ok reply_bytes
unfolding reply_2 rust_raknet.Packet.OpenConnection.write_packet_connection_open_reply_2
    rust_raknet.Prelude.State.◌>>=◌ rust_raknet.Datatype.Writer.write_u8
    rust_raknet.Datatype.Writer.write_magic rust_raknet.Prelude.State.pure
    rust_raknet.Datatype.Writer.write_u64 rust_raknet.Datatype.Address.write_address
    rust_raknet.Datatype.Writer.write_u16 reference rust_raknet.Bytes.Words.to_be
    rust_raknet.Packet.Id.to_u8 new
reply_written = refl

requested-session : session_of requested.0 peer ≡ some session
unfolding on_request_2 try_reserve admit new
requested-session = rw (request_read, reply_written) refl

request_2_again_example :
    seen (on_request_2 reference requested.0 turn peer request_bytes) ≡ seen requested
unfolding new
request_2_again_example =
    request_2_again reference listener turn turn peer request_bytes session refl requested-session

shut_down_lem_example :
    (session_of (shut_down connected (peer ∷ [])) peer ≡ none)
    × (get same_address (shut_down connected (peer ∷ [])).version_map peer ≡ none)
    × ((s : SessionSender)
        → session_of connected peer ≡ some s
        → ((shut_down connected (peer ∷ [])).links s.link).closed ≡ true)
shut_down_lem_example = shut_down_lem connected (peer ∷ []) peer

connected-link : (connected.links 0).closed ≡ false
unfolding admit new assign
connected-link = refl

collect-session_of_example : session_of (collect connected peer).0 peer ≡ some session
collect-session_of_example =
    collect-session_of connected peer peer session connected-session connected-link

connected-receiving : (connected.links 0).receiving ≡ true
unfolding admit new assign
connected-receiving = refl

connected-room : length (connected.links 0).inbox < capacity
unfolding admit new assign
connected-room = omega arith

dispatch-links_example :
    (dispatch connected peer (0x84 ∷ [])).links
    ≡ assign connected.links 0
        (record (connected.links 0) { inbox = (connected.links 0).inbox ++ ((0x84 ∷ []) ∷ []) })
dispatch-links_example =
    dispatch-links connected peer session (0x84 ∷ []) connected-IsSound connected-session
      connected-receiving connected-room
