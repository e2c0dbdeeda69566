-- ===== src/Connection/Tests.antt =====
-- The theorems on connections at concrete connections, over the reference instance of `bytes`.
use rust_raknet.Prelude.{
  ℕ, ◌≡◌, ◌≤◌, refl, true, false, not, some, List, [], ◌∷◌, ◌++◌, map, take, drop, min, arith,
}
use rust_raknet.Prelude.Int.{pos}
use rust_raknet.Prelude.Sets.{contains}
use rust_raknet.Error.{ok}
use rust_raknet.Bytes.Reference.{reference}
use rust_raknet.Datatype.Address.{SocketAddr, v4}
use rust_raknet.Frame.Reliability.{reliable_ordered}
use rust_raknet.Frame.Packet.{FrameSetPacket}
use rust_raknet.Frame.Packet
use rust_raknet.Settings.{raknet_protocol_version_list, raknet_max_mtu}
use rust_raknet.Server.Worker.{Listener, SessionSender}
use rust_raknet.Server.Worker
use rust_raknet.Server.Receive.{session_of, receive}
use rust_raknet.Server.SoundAdmit.{admitted}
use rust_raknet.Connection.Connect.{negotiated}
use rust_raknet.Connection.ConnectLaws.{negotiated_within}
use rust_raknet.Connection.Agree.{offered, IsReady, noted, request_1, request_2}
use rust_raknet.Connection.Handshake.{joined, handshake_agrees}
use rust_raknet.Connection.State.{Connection, Turn, opened}
use rust_raknet.Connection.Deliver.{deliver}
use rust_raknet.Connection.Stream.{stream, payload_of, deliver-stream}
use rust_raknet.Connection.Ticker.{tick}
use rust_raknet.Connection.TickerLaws.{is_over, tick-closed}
use rust_raknet.Connection.Calls.{returns, recv_batch}
use rust_raknet.Connection.CallsLaws.{recv_batch_lem}

abbrev client : SocketAddr
client = v4 (10 ∷ 0 ∷ 0 ∷ 2 ∷ []) 5000

abbrev server : SocketAddr
server = v4 (10 ∷ 0 ∷ 0 ∷ 1 ∷ []) 19132

abbrev listener : Listener
listener = Worker.new 7 (0x6d ∷ []) 1400 2

abbrev early : Worker.Turn
early = record { wall = pos 5; now = 9; sends = true }

abbrev late : Worker.Turn
late = record { wall = pos 6; now = 10; sends = true }

listener-IsReady : IsReady listener client
unfolding Worker.new Worker.try_reserve
listener-IsReady = record {
  fresh = refl;
  room = refl;
  few = omega arith;
  least = omega arith;
  size = omega arith;
  identity = omega arith;
}

known : contains raknet_protocol_version_list 11 ≡ true
unfolding contains
known = refl

handshake_agrees_example :
    (b1 : List ℕ) × (r1 : List ℕ) × (b2 : List ℕ) × (r2 : List ℕ) × (request_1 reference 11 1492
      ≡ ok b1)
    × (receive reference listener early client b1
        ≡ (noted listener early client 11, (client, r1) ∷ []))
    × (request_2 reference server (offered listener 1492) 42 ≡ ok b2)
    × (receive reference (noted listener early client 11) late client b2
        ≡ (joined listener early late client 11 1492 42, (client, r2) ∷ []))
    × (negotiated reference server 11 1492 42 (some (server, r1) ∷ some (server, r2) ∷ [])
        ≡ some (ok (offered listener 1492)))
    × (session_of (joined listener early late client 11 1492 42) client
        ≡ some (admitted listener 42 (offered listener 1492)))
handshake_agrees_example =
    handshake_agrees reference listener early late client server 11 1492 42 listener-IsReady
      (refl, (omega arith, (omega arith, (omega arith, (omega arith, tt)))), omega arith)
      (refl, (omega arith, (omega arith, (omega arith, (omega arith, tt)))), omega arith) known
      (omega arith) (omega arith) (omega arith) refl

negotiated_within_example :
    (61 ≤ offered listener 1492) × (offered listener 1492 ≤ 1492) × (1492 ≤ raknet_max_mtu)
negotiated_within_example =
    let (b1, r1, b2, r2, written, answered, sent, replied, ended, kept) =
      handshake_agrees reference listener early late client server 11 1492 42 listener-IsReady
        (refl, (omega arith, (omega arith, (omega arith, (omega arith, tt)))), omega arith)
        (refl, (omega arith, (omega arith, (omega arith, (omega arith, tt)))), omega arith) known
        (omega arith) (omega arith) (omega arith) refl in
    negotiated_within reference server 11 1492 42 (some (server, r1) ∷ some (server, r2) ∷ [])
      (offered listener 1492) ended

abbrev bytes_deref : List ℕ → List ℕ
bytes_deref data' = data'

abbrev bytes_slice : List ℕ → ℕ → ℕ → List ℕ
bytes_slice data' start end = data'

abbrev connection : Connection bytes_deref
connection = opened bytes_deref server client 1400 100

abbrev turn : Turn bytes_deref
turn = record {
  now = 60_101;
  instant = 5;
  wall = pos 5;
  drained = true;
  transmits = λ frames. ok tt;
}

abbrev ready : List (FrameSetPacket (List ℕ))
ready =
    Packet.new bytes_deref reliable_ordered (0xfe ∷ 1 ∷ [])
    ∷ Packet.new bytes_deref reliable_ordered (0xfe ∷ 2 ∷ [])
    ∷ []

deliver-stream_example :
    (stream bytes_deref (deliver reference bytes_deref bytes_slice turn ready connection).0
      ≡ stream bytes_deref connection ++ map (payload_of bytes_deref) ready)
    × ((deliver reference bytes_deref bytes_slice turn ready connection).1 ≡ [])
unfolding rust_raknet.Connection.Deliver.is_game Packet.deref Packet.new
deliver-stream_example =
    deliver-stream reference bytes_deref bytes_slice turn ready connection (refl, (refl, tt)) refl

tick-closed_example :
    ((tick reference bytes_deref connection turn).1.0.closed ≡ is_over bytes_deref connection turn)
    × ((tick reference bytes_deref connection turn).0.1 ≡ not (is_over bytes_deref connection turn))
tick-closed_example = tick-closed reference bytes_deref connection turn

recv_batch_lem_example :
    recv_batch false true 2 ((0xfe ∷ []) ∷ (0xfe ∷ 1 ∷ []) ∷ (0xfe ∷ 2 ∷ []) ∷ []) ≡ (
      returns (ok (take (min 2 64) ((0xfe ∷ []) ∷ (0xfe ∷ 1 ∷ []) ∷ (0xfe ∷ 2 ∷ []) ∷ []))),
      drop (min 2 64) ((0xfe ∷ []) ∷ (0xfe ∷ 1 ∷ []) ∷ (0xfe ∷ 2 ∷ []) ∷ []),
    )
recv_batch_lem_example =
    recv_batch_lem false true 2 (0xfe ∷ []) ((0xfe ∷ 1 ∷ []) ∷ (0xfe ∷ 2 ∷ []) ∷ [])
