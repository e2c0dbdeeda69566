-- ===== src/Packet/Connected.antt =====
-- The packets inside a connection: the connection request and its answers, ping and pong.
use rust_raknet.Prelude.{ℕ, zero, suc, not, List, [], ◌∷◌, ltb, ◌==◌, if◌then◌else◌}
use rust_raknet.Prelude.Int.{ℤ}
use rust_raknet.Prelude.State.{M, ◌>>=◌, ◌>>◌, pure, refuse}
use rust_raknet.Error.{Result, packet_parse_error}
use rust_raknet.Bytes.{BytesCrate, BufMut, Buf}
use rust_raknet.Datatype.{big}
use rust_raknet.Datatype.Writer.{RaknetWriter, write_u8, write_u16, write_u64, write_i64}
use rust_raknet.Datatype.Reader.{RaknetReader, remaining, read_u8, read_u16, read_u64, read_i64}
use rust_raknet.Datatype.Address.{SocketAddr, v4, write_address, read_address}
use rust_raknet.Packet.Id.{
  to_u8, connection_request, connection_request_accepted, new_incoming_connection, connected_ping,
  connected_pong,
}
use rust_raknet.Packet.Shared.{reading, writing}

pub record ConnectionRequest : Type 0 where
  pub guid : ℕ
  pub time : ℤ
  pub use_encryption : ℕ

pub record ConnectionRequestAccepted : Type 0 where
  pub client_address : SocketAddr
  pub system_index : ℕ
  pub request_timestamp : ℤ
  pub accepted_timestamp : ℤ

pub record NewIncomingConnection : Type 0 where
  pub server_address : SocketAddr
  pub request_timestamp : ℤ
  pub accepted_timestamp : ℤ

pub record ConnectedPing : Type 0 where
  pub client_timestamp : ℤ

pub record ConnectedPong : Type 0 where
  pub client_timestamp : ℤ
  pub server_timestamp : ℤ

module _ (buf : Buf) where
  -- The test behind the loop, on the bytes that are left.
  unfoldable pub sixteen_left : ℕ → M RaknetReader (Unit {0})
  sixteen_left left = refuse (not (left == 16)) packet_parse_error

  unfoldable pub next_address : M RaknetReader (Unit {0}) → ℕ → M RaknetReader (Unit {0})
  next_address rest left =
      if ltb 16 left then (read_address buf >>= λ _. rest) else sixteen_left left

  -- `while cursor.remaining() > 16 && count < 20`, on the rounds left.
  unfoldable pub internal_loop : ℕ → M RaknetReader (Unit {0})
  internal_loop zero = remaining buf >>= sixteen_left
  internal_loop (suc rounds) = remaining buf >>= next_address (internal_loop rounds)

  unfoldable pub read_internal_addresses : M RaknetReader (Unit {0})
  read_internal_addresses = internal_loop 20

module _ {B : Type 0} (buf : BufMut B) where
  -- `for _ in 0..count { cursor.write_address(address)?; }`
  unfoldable pub write_addresses : ℕ → SocketAddr → M (RaknetWriter B) (Unit {0})
  write_addresses zero address = pure tt
  write_addresses (suc count) address = do write_address buf address; write_addresses count address

module _ (crate : BytesCrate) where
  unfoldable pub read_packet_connection_request : List ℕ → Result ConnectionRequest
  read_packet_connection_request = reading do
    read_u8 crate.cursor
    guid ← read_u64 crate.cursor big
    time ← read_i64 crate.cursor big
    use_encryption ← read_u8 crate.cursor
    pure (record { guid = guid; time = time; use_encryption = use_encryption })

  unfoldable pub write_packet_connection_request : ConnectionRequest → Result (List ℕ)
  write_packet_connection_request packet = writing do
    write_u8 crate.vec (to_u8 connection_request)
    write_u64 crate.vec packet.guid big
    write_i64 crate.vec packet.time big
    write_u8 crate.vec packet.use_encryption

  unfoldable pub read_packet_connection_request_accepted : List ℕ → Result ConnectionRequestAccepted
  read_packet_connection_request_accepted = reading do
    read_u8 crate.cursor
    client_address ← read_address crate.cursor
    system_index ← read_u16 crate.cursor big
    read_internal_addresses crate.cursor
    request_timestamp ← read_i64 crate.cursor big
    accepted_timestamp ← read_i64 crate.cursor big
    pure (record {
      client_address = client_address;
      system_index = system_index;
      request_timestamp = request_timestamp;
      accepted_timestamp = accepted_timestamp;
    })

  unfoldable pub write_packet_connection_request_accepted :
      ConnectionRequestAccepted → Result (List ℕ)
  write_packet_connection_request_accepted packet = writing do
    write_u8 crate.vec (to_u8 connection_request_accepted)
    write_address crate.vec packet.client_address
    write_u16 crate.vec packet.system_index big
    write_addresses crate.vec 10 (v4 (255 ∷ 255 ∷ 255 ∷ 255 ∷ []) 19132)
    write_i64 crate.vec packet.request_timestamp big
    write_i64 crate.vec packet.accepted_timestamp big

  unfoldable pub read_packet_new_incoming_connection : List ℕ → Result NewIncomingConnection
  read_packet_new_incoming_connection = reading do
    read_u8 crate.cursor
    server_address ← read_address crate.cursor
    read_internal_addresses crate.cursor
    request_timestamp ← read_i64 crate.cursor big
    accepted_timestamp ← read_i64 crate.cursor big
    pure (record {
      server_address = server_address;
      request_timestamp = request_timestamp;
      accepted_timestamp = accepted_timestamp;
    })

  unfoldable pub write_packet_new_incoming_connection : NewIncomingConnection → Result (List ℕ)
  write_packet_new_incoming_connection packet = writing do
    write_u8 crate.vec (to_u8 new_incoming_connection)
    write_address crate.vec packet.server_address
    write_addresses crate.vec 10 (v4 (0 ∷ 0 ∷ 0 ∷ 0 ∷ []) 0)
    write_i64 crate.vec packet.request_timestamp big
    write_i64 crate.vec packet.accepted_timestamp big

  unfoldable pub read_packet_connected_ping : List ℕ → Result ConnectedPing
  read_packet_connected_ping = reading do
    read_u8 crate.cursor
    client_timestamp ← read_i64 crate.cursor big
    pure (record { client_timestamp = client_timestamp })

  unfoldable pub write_packet_connected_ping : ConnectedPing → Result (List ℕ)
  write_packet_connected_ping packet =
      writing do
        write_u8 crate.vec (to_u8 connected_ping)
        write_i64 crate.vec packet.client_timestamp big

  -- `_read_packet_connected_pong`
  unfoldable pub read_packet_connected_pong : List ℕ → Result ConnectedPong
  read_packet_connected_pong = reading do
    read_u8 crate.cursor
    client_timestamp ← read_i64 crate.cursor big
    server_timestamp ← read_i64 crate.cursor big
    pure (record { client_timestamp = client_timestamp; server_timestamp = server_timestamp })

  unfoldable pub write_packet_connected_pong : ConnectedPong → Result (List ℕ)
  write_packet_connected_pong packet = writing do
    write_u8 crate.vec (to_u8 connected_pong)
    write_i64 crate.vec packet.client_timestamp big
    write_i64 crate.vec packet.server_timestamp big
