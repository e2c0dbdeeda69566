-- ===== src/Packet/OpenConnection.antt =====
-- The packets that open a connection.
use rust_raknet.Prelude.{
  ℕ, ◌+◌, ◌-◌, Option, none, some, List, length, replicate, ltb, leb, if◌then◌else◌,
}
use rust_raknet.Prelude.State.{◌>>=◌, ◌>>◌, pure, refuse, lift}
use rust_raknet.Error.{Result, ok_or, packet_size_exceed_mtu}
use rust_raknet.Bytes.{BytesCrate}
use rust_raknet.Datatype.{big}
use rust_raknet.Datatype.Writer.{write, write_u8, write_u16, write_u64, write_magic}
use rust_raknet.Datatype.Reader.{read_u8, read_u16, read_u64}
use rust_raknet.Datatype.Address.{SocketAddr, write_address, read_address}
use rust_raknet.Packet.Id.{
  to_u8, open_connection_request_1, open_connection_reply_1, open_connection_request_2,
  open_connection_reply_2,
}
use rust_raknet.Packet.Shared.{reading, writing, read_magic}

pub record OpenConnectionRequest1 : Type 0 where
  pub protocol_version : ℕ
  pub mtu_size : ℕ

pub record OpenConnectionRequest2 : Type 0 where
  pub address : SocketAddr
  pub mtu : ℕ
  pub guid : ℕ

pub record OpenConnectionReply1 : Type 0 where
  pub guid : ℕ
  pub use_encryption : ℕ
  pub mtu_size : ℕ

pub record OpenConnectionReply2 : Type 0 where
  pub guid : ℕ
  pub address : SocketAddr
  pub mtu : ℕ
  pub encryption_enabled : ℕ

-- `checked_add(28)` and `u16::try_from`: a sum past `usize` is past `u16` too.
unfoldable pub reported_mtu : ℕ → Option ℕ
reported_mtu size = if leb (size + 28) 65_535 then some (size + 28) else none

module _ (crate : BytesCrate) where
  unfoldable pub read_packet_connection_open_request_1 : List ℕ → Result OpenConnectionRequest1
  read_packet_connection_open_request_1 buf =
      reading
        (do
          read_u8 crate.cursor
          read_magic crate.cursor
          protocol_version ← read_u8 crate.cursor
          mtu_size ← lift (ok_or (reported_mtu (length buf)) packet_size_exceed_mtu)
          pure (record { protocol_version = protocol_version; mtu_size = mtu_size }))
        buf

  unfoldable pub write_packet_connection_open_request_1 : OpenConnectionRequest1 → Result (List ℕ)
  write_packet_connection_open_request_1 packet = writing do
    write_u8 crate.vec (to_u8 open_connection_request_1)
    write_magic crate.vec
    write_u8 crate.vec packet.protocol_version
    refuse (ltb packet.mtu_size 46) packet_size_exceed_mtu
    write crate.vec (replicate (packet.mtu_size - 46) 0)

  unfoldable pub read_packet_connection_open_request_2 : List ℕ → Result OpenConnectionRequest2
  read_packet_connection_open_request_2 = reading do
    read_u8 crate.cursor
    read_magic crate.cursor
    address ← read_address crate.cursor
    mtu ← read_u16 crate.cursor big
    guid ← read_u64 crate.cursor big
    pure (record { address = address; mtu = mtu; guid = guid })

  unfoldable pub write_packet_connection_open_request_2 : OpenConnectionRequest2 → Result (List ℕ)
  write_packet_connection_open_request_2 packet = writing do
    write_u8 crate.vec (to_u8 open_connection_request_2)
    write_magic crate.vec
    write_address crate.vec packet.address
    write_u16 crate.vec packet.mtu big
    write_u64 crate.vec packet.guid big

  unfoldable pub read_packet_connection_open_reply_1 : List ℕ → Result OpenConnectionReply1
  read_packet_connection_open_reply_1 = reading do
    read_u8 crate.cursor
    read_magic crate.cursor
    guid ← read_u64 crate.cursor big
    use_encryption ← read_u8 crate.cursor
    mtu_size ← read_u16 crate.cursor big
    pure (record { guid = guid; use_encryption = use_encryption; mtu_size = mtu_size })

  unfoldable pub write_packet_connection_open_reply_1 : OpenConnectionReply1 → Result (List ℕ)
  write_packet_connection_open_reply_1 packet = writing do
    write_u8 crate.vec (to_u8 open_connection_reply_1)
    write_magic crate.vec
    write_u64 crate.vec packet.guid big
    write_u8 crate.vec packet.use_encryption
    write_u16 crate.vec packet.mtu_size big

  unfoldable pub read_packet_connection_open_reply_2 : List ℕ → Result OpenConnectionReply2
  read_packet_connection_open_reply_2 = reading do
    read_u8 crate.cursor
    read_magic crate.cursor
    guid ← read_u64 crate.cursor big
    address ← read_address crate.cursor
    mtu ← read_u16 crate.cursor big
    encryption_enabled ← read_u8 crate.cursor
    pure (record {
      guid = guid;
      address = address;
      mtu = mtu;
      encryption_enabled = encryption_enabled;
    })

  unfoldable pub write_packet_connection_open_reply_2 : OpenConnectionReply2 → Result (List ℕ)
  write_packet_connection_open_reply_2 packet = writing do
    write_u8 crate.vec (to_u8 open_connection_reply_2)
    write_magic crate.vec
    write_u64 crate.vec packet.guid big
    write_address crate.vec packet.address
    write_u16 crate.vec packet.mtu big
    write_u8 crate.vec packet.encryption_enabled
