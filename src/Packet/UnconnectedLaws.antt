-- ===== src/Packet/UnconnectedLaws.antt =====
-- Round trips of the packets outside a connection.
use rust_raknet.Prelude.{ℕ, ◌^◌, ◌<◌, ◌≡◌, refl, not, true, List, [], ◌∷◌, length, arith}
use rust_raknet.Prelude.Int.{IsI64}
use rust_raknet.Prelude.Utf8.{is_utf8}
use rust_raknet.Error.{ok, err, packet_header_error, and_then}
use rust_raknet.Bytes.{BytesCrate}
use rust_raknet.Bytes.Words.{to_be, sizes}
use rust_raknet.Datatype.Writer.{magic}
use rust_raknet.Datatype.Reader.{bytes_eq}
use rust_raknet.Datatype.Reads.{
  Fails, Fails-after, Fails-after_last, Fails-first, Fails-append, Fails-refuse, Reads-bind,
  Reads-last, Reads-pure,
}
use rust_raknet.Datatype.ReadLaws.{
  read_u8-Reads, read_u64-Reads, read_i64-Reads, read_string-Reads, read_16-Reads,
}
use rust_raknet.Datatype.Writes.{
  Writes-bind, write_u8-Writes, write_u64-Writes, write_i64-Writes, write_magic-Writes,
  write_string-Writes,
}
use rust_raknet.Packet.Id.{to_u8}
use rust_raknet.Packet.Shared.{
  read_magic, read_magic-Reads, read_back, read_refused, IsWire, wired, IsWire-and_then,
}
use rust_raknet.Packet.Unconnected.{
  PacketUnconnectedPing, PacketUnconnectedPong, AlreadyConnected, IncompatibleProtocolVersion,
  read_packet_incompatible_protocol_version, write_packet_incompatible_protocol_version,
  read_packet_ping, write_packet_ping, read_packet_pong, write_packet_pong,
  read_packet_already_connected, write_packet_already_connected,
}

not-magic :
    (p : ℕ)
    → not (
        bytes_eq
          (p ∷ 0x00 ∷ 0xff ∷ 0xff ∷ 0x00 ∷ 0xfe ∷ 0xfe ∷ 0xfe ∷ 0xfe ∷ 0xfd ∷ 0xfd ∷ 0xfd ∷ 0xfd
            ∷ 0x12 ∷ 0x34 ∷ 0x56 ∷ [])
          magic)
      ≡ true
unfolding bytes_eq
not-magic p = ground arith

module _ (crate : BytesCrate) where
  pub read_packet_ping-IsWire :
      (p : PacketUnconnectedPing)
      → IsI64 p.time
      → p.guid < 2 ^ 64
      → IsWire crate 1 (write_packet_ping crate p) (read_packet_ping crate) p
  unfolding read_packet_ping write_packet_ping to_u8
  read_packet_ping-IsWire p ht hg =
      wired crate
        (Writes-bind _ (write_u8-Writes crate.vec_laws 0x01 (omega arith)) (
          Writes-bind _ (write_i64-Writes crate.vec_laws p.time) (
            Writes-bind _ (write_magic-Writes crate.vec_laws)
              (write_u64-Writes crate.vec_laws p.guid))))
        (Reads-bind _ (read_u8-Reads crate.cursor_laws 0x01) (
          Reads-bind _ (read_i64-Reads crate.cursor_laws p.time ht) (
            Reads-bind _ (read_magic-Reads crate.cursor_laws)
              (Reads-last _ (read_u64-Reads crate.cursor_laws p.guid hg) (Reads-pure p)))))
        (omega sizes)

  -- An unconnected ping whose time is an i64 and whose GUID a u64 is read back as it was written.
  pub read_packet_ping-write :
      (p : PacketUnconnectedPing)
      → IsI64 p.time
      → p.guid < 2 ^ 64
      → and_then (write_packet_ping crate p) (read_packet_ping crate) ≡ ok p
  read_packet_ping-write p ht hg =
      IsWire-and_then crate (write_packet_ping crate p) (read_packet_ping crate)
        (read_packet_ping-IsWire p ht hg)

  pub read_packet_pong-IsWire :
      (p : PacketUnconnectedPong)
      → IsI64 p.time
      → p.guid < 2 ^ 64
      → length p.motd < 2 ^ 16
      → is_utf8 p.motd ≡ true
      → IsWire crate 28 (write_packet_pong crate p) (read_packet_pong crate) p
  unfolding read_packet_pong write_packet_pong to_u8
  read_packet_pong-IsWire p ht hg size valid =
      wired crate
        (Writes-bind _ (write_u8-Writes crate.vec_laws 0x1c (omega arith)) (
          Writes-bind _ (write_i64-Writes crate.vec_laws p.time) (
            Writes-bind _ (write_u64-Writes crate.vec_laws p.guid) (
              Writes-bind _ (write_magic-Writes crate.vec_laws)
                (write_string-Writes crate.vec_laws p.motd size)))))
        (Reads-bind _ (read_u8-Reads crate.cursor_laws 0x1c) (
          Reads-bind _ (read_i64-Reads crate.cursor_laws p.time ht) (
            Reads-bind _ (read_u64-Reads crate.cursor_laws p.guid hg) (
              Reads-bind _ (read_magic-Reads crate.cursor_laws) (
                Reads-last _ (read_string-Reads crate.cursor_laws p.motd size valid)
                  (Reads-pure p))))))
        (omega sizes)

  -- An unconnected pong whose time is an i64, whose GUID a u64 and whose message of the day is
  -- UTF-8 of at most 65535 bytes is read back as it was written.
  pub read_packet_pong-write :
      (p : PacketUnconnectedPong)
      → IsI64 p.time
      → p.guid < 2 ^ 64
      → length p.motd < 2 ^ 16
      → is_utf8 p.motd ≡ true
      → and_then (write_packet_pong crate p) (read_packet_pong crate) ≡ ok p
  read_packet_pong-write p ht hg size valid =
      IsWire-and_then crate (write_packet_pong crate p) (read_packet_pong crate)
        (read_packet_pong-IsWire p ht hg size valid)

  -- A packet AlreadyConnected whose GUID is a u64 is read back as it was written.
  pub read_packet_already_connected-write :
      (p : AlreadyConnected)
      → p.guid < 2 ^ 64
      → and_then (write_packet_already_connected crate p) (read_packet_already_connected crate)
        ≡ ok p
  unfolding read_packet_already_connected write_packet_already_connected to_u8
  read_packet_already_connected-write p hg =
      read_back crate
        (Writes-bind _ (write_u8-Writes crate.vec_laws 0x12 (omega arith)) (
          Writes-bind _ (write_magic-Writes crate.vec_laws)
            (write_u64-Writes crate.vec_laws p.guid)))
        (Reads-bind _ (read_u8-Reads crate.cursor_laws 0x12) (
          Reads-bind _ (read_magic-Reads crate.cursor_laws)
            (Reads-last _ (read_u64-Reads crate.cursor_laws p.guid hg) (Reads-pure p))))
        (omega sizes)

  shifted_magic : ℕ → List ℕ
  shifted_magic p =
      p ∷ 0x00 ∷ 0xff ∷ 0xff ∷ 0x00 ∷ 0xfe ∷ 0xfe ∷ 0xfe ∷ 0xfe ∷ 0xfd ∷ 0xfd ∷ 0xfd ∷ 0xfd ∷ 0x12
      ∷ 0x34 ∷ 0x56 ∷ []

  read_shifted : (p : ℕ) → Fails (read_magic crate.cursor) (shifted_magic p) packet_header_error
  unfolding read_magic shifted_magic
  read_shifted p =
      Fails-after_last _ (read_16-Reads crate.cursor_laws (shifted_magic p) refl)
        (Fails-refuse packet_header_error (not-magic p))

  -- The reader of IncompatibleProtocolVersion expects the magic before the protocol version and
  -- the writer puts it behind: whatever is written, its version a byte, is refused with
  -- PacketHeaderError.
  pub read_packet_incompatible_protocol_version-write :
      (p : IncompatibleProtocolVersion)
      → p.server_protocol < 2 ^ 8
      → and_then
          (write_packet_incompatible_protocol_version crate p)
          (read_packet_incompatible_protocol_version crate)
        ≡ err packet_header_error
  unfolding read_packet_incompatible_protocol_version write_packet_incompatible_protocol_version
      to_u8 shifted_magic
  read_packet_incompatible_protocol_version-write p h =
      read_refused crate
        (Writes-bind _ (write_u8-Writes crate.vec_laws 0x19 (omega arith)) (
          Writes-bind _ (write_u8-Writes crate.vec_laws p.server_protocol h) (
            Writes-bind _ (write_magic-Writes crate.vec_laws)
              (write_u64-Writes crate.vec_laws p.server_guid))))
        (Fails-after _ (read_u8-Reads crate.cursor_laws 0x19) (
          Fails-first _
            (Fails-append (0x78 ∷ to_be 8 p.server_guid) (read_shifted p.server_protocol))))
        (omega sizes)
