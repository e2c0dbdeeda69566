-- ===== src/Packet/Unconnected.antt =====
-- Packets outside a connection: ping, pong, and the two refusals of a server.
use rust_raknet.Prelude.{ℕ, List}
use rust_raknet.Prelude.Int.{ℤ}
use rust_raknet.Prelude.State.{◌>>=◌, ◌>>◌, pure}
use rust_raknet.Error.{Result}
use rust_raknet.Bytes.{BytesCrate}
use rust_raknet.Datatype.{big}
use rust_raknet.Datatype.Writer.{write_u8, write_i64, write_u64, write_magic, write_string}
use rust_raknet.Datatype.Reader.{read_u8, read_i64, read_u64, read_string}
use rust_raknet.Packet.Id.{
  to_u8, unconnected_ping_1, unconnected_pong, already_connected, incompatible_protocol_version,
}
use rust_raknet.Packet.Shared.{reading, writing, read_magic}

pub record PacketUnconnectedPing : Type 0 where
  pub time : ℤ
  pub guid : ℕ

pub record PacketUnconnectedPong : Type 0 where
  pub time : ℤ
  pub guid : ℕ
  pub motd : List ℕ

pub record AlreadyConnected : Type 0 where
  pub guid : ℕ

pub record IncompatibleProtocolVersion : Type 0 where
  pub server_protocol : ℕ
  pub server_guid : ℕ

module _ (crate : BytesCrate) where
  unfoldable pub read_packet_ping : List ℕ → Result PacketUnconnectedPing
  read_packet_ping = reading do
    read_u8 crate.cursor
    time ← read_i64 crate.cursor big
    read_magic crate.cursor
    guid ← read_u64 crate.cursor big
    pure (record { time = time; guid = guid })

  unfoldable pub write_packet_ping : PacketUnconnectedPing → Result (List ℕ)
  write_packet_ping packet = writing do
    write_u8 crate.vec (to_u8 unconnected_ping_1)
    write_i64 crate.vec packet.time big
    write_magic crate.vec
    write_u64 crate.vec packet.guid big

  unfoldable pub read_packet_pong : List ℕ → Result PacketUnconnectedPong
  read_packet_pong = reading do
    read_u8 crate.cursor
    time ← read_i64 crate.cursor big
    guid ← read_u64 crate.cursor big
    read_magic crate.cursor
    motd ← read_string crate.cursor
    pure (record { time = time; guid = guid; motd = motd })

  unfoldable pub write_packet_pong : PacketUnconnectedPong → Result (List ℕ)
  write_packet_pong packet = writing do
    write_u8 crate.vec (to_u8 unconnected_pong)
    write_i64 crate.vec packet.time big
    write_u64 crate.vec packet.guid big
    write_magic crate.vec
    write_string crate.vec packet.motd

  -- `_read_packet_already_connected`
  unfoldable pub read_packet_already_connected : List ℕ → Result AlreadyConnected
  read_packet_already_connected = reading do
    read_u8 crate.cursor
    read_magic crate.cursor
    guid ← read_u64 crate.cursor big
    pure (record { guid = guid })

  unfoldable pub write_packet_already_connected : AlreadyConnected → Result (List ℕ)
  write_packet_already_connected packet = writing do
    write_u8 crate.vec (to_u8 already_connected)
    write_magic crate.vec
    write_u64 crate.vec packet.guid big

  unfoldable pub read_packet_incompatible_protocol_version :
      List ℕ → Result IncompatibleProtocolVersion
  read_packet_incompatible_protocol_version = reading do
    read_u8 crate.cursor
    read_magic crate.cursor
    server_protocol ← read_u8 crate.cursor
    server_guid ← read_u64 crate.cursor big
    pure (record { server_protocol = server_protocol; server_guid = server_guid })

  unfoldable pub write_packet_incompatible_protocol_version :
      IncompatibleProtocolVersion → Result (List ℕ)
  write_packet_incompatible_protocol_version packet = writing do
    write_u8 crate.vec (to_u8 incompatible_protocol_version)
    write_u8 crate.vec packet.server_protocol
    write_magic crate.vec
    write_u64 crate.vec packet.server_guid big
