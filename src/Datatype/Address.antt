-- ===== src/Datatype/Address.antt =====
-- `write_address` and `read_address` of src/datatype.rs.
use rust_raknet.Prelude.{ℕ, ◌-◌, ◌||◌, List, [], ◌∷◌, ◌==◌, if◌then◌else◌}
use rust_raknet.Prelude.Int.{pos}
use rust_raknet.Prelude.State.{M, ◌>>=◌, ◌>>◌, pure, fail}
use rust_raknet.Error.{packet_header_error}
use rust_raknet.Bytes.{BufMut, Buf}
use rust_raknet.Datatype.{big, little}
use rust_raknet.Datatype.Writer.{RaknetWriter, write, write_u8, write_i16, write_u16, write_i32}
use rust_raknet.Datatype.Reader.{RaknetReader, read, read_u8, read_u16, skip, need}

-- `std::net::SocketAddr`: the octets and the port, and for version 6 `flowinfo` and `scope_id`.
pub data SocketAddr : Type 0 where
  v4 : List ℕ → ℕ → SocketAddr
  v6 : List ℕ → ℕ → ℕ → ℕ → SocketAddr

module _ {B : Type 0} (bytes : BufMut B) where
  -- `for octet in address.ip().octets() { self.write_u8(0xff - octet)?; }`
  unfoldable pub write_octets : List ℕ → M (RaknetWriter B) (Unit {0})
  write_octets [] = pure tt
  write_octets (octet ∷ octets) = do write_u8 bytes (0xff - octet); write_octets octets

  unfoldable pub write_address : SocketAddr → M (RaknetWriter B) (Unit {0})
  unfolding write_octets
  write_address (v4 octets port) = do
    write_u8 bytes 4
    write_octets octets
    write_u16 bytes port big
  write_address (v6 octets port flowinfo scope_id) = do
    write_u8 bytes 6
    write_i16 bytes (pos 23) little
    write_u16 bytes port big
    write_i32 bytes (pos 0) big
    write bytes octets
    write_i32 bytes (pos 0) big

module _ (bytes : Buf) where
  unfoldable pub read_v4 : M RaknetReader SocketAddr
  read_v4 = do
    need bytes 6
    a ← read_u8 bytes
    b ← read_u8 bytes
    c ← read_u8 bytes
    d ← read_u8 bytes
    port ← read_u16 bytes big
    pure (v4 ((0xff - a) ∷ (0xff - b) ∷ (0xff - c) ∷ (0xff - d) ∷ []) port)

  -- `family` bytes of the address family come first.
  unfoldable pub read_v6 : ℕ → M RaknetReader SocketAddr
  read_v6 family = do
    skip bytes family
    port ← read_u16 bytes big
    skip bytes 4
    octets ← read 16
    skip bytes 4
    pure (v6 octets port 0 0)

  -- Version 23 is the legacy encoding, without a version byte before AF_INET6.
  unfoldable pub versioned : ℕ → M RaknetReader SocketAddr
  unfolding read_v4 read_v6
  versioned ip_ver =
      if ip_ver == 4
      then read_v4
      else if ip_ver == 6 || ip_ver == 23
      then read_v6 (if ip_ver == 6 then 2 else 1)
      else fail packet_header_error

  unfoldable pub read_address : M RaknetReader SocketAddr
  unfolding versioned
  read_address = do ip_ver ← read_u8 bytes; versioned ip_ver
