-- ===== src/Datatype/Reader.antt =====
-- `RaknetReader` of src/datatype.rs.
use rust_raknet.Prelude.{
  ℕ, ◌+◌, Bool, true, false, not, List, [], ◌∷◌, length, take, drop, ltb, ◌==◌, ◌&&◌, if◌then◌else◌,
}
use rust_raknet.Prelude.Int.{ℤ}
use rust_raknet.Prelude.State.{M, ◌>>=◌, ◌>>◌, pure, refuse}
use rust_raknet.Prelude.Utf8.{is_utf8}
use rust_raknet.Error.{ok, err, packet_parse_error, read_packet_buffer_error}
use rust_raknet.Bytes.{Cursor, Buf}
use rust_raknet.Bytes.Words.{of_be, of_le}
use rust_raknet.Datatype.{Endian, big, little}
use rust_raknet.Datatype.Writer.{magic}

pub record RaknetReader : Type 0 where
  pub buf : Cursor

abbrev pub new : List ℕ → RaknetReader
new bytes = record { buf = record { inner = bytes; position = 0 } }

abbrev pub pos : M RaknetReader ℕ
pos r = ok (r.buf.position, r)

-- `std::io::Read::read_exact` of a cursor, into a buffer of `n` bytes.
unfoldable pub read : ℕ → M RaknetReader (List ℕ)
read n r =
    let rest = drop r.buf.position r.buf.inner in
    if ltb (length rest) n
    then err read_packet_buffer_error
    else ok (take n rest, record { buf = record r.buf { position = r.buf.position + n } })

-- `source.get(start..end)` and `set_position(end)`. An end past `usize` is past the end of any
-- slice, so that `checked_add` and `get` fail together, with the same error.
unfoldable pub read_slice : ℕ → M RaknetReader (List ℕ)
read_slice n r =
    let start = r.buf.position in
    let end = start + n in
    if ltb (length r.buf.inner) end
    then err read_packet_buffer_error
    else ok (take n (drop start r.buf.inner), record { buf = record r.buf { position = end } })

unfoldable pub bytes_eq : List ℕ → List ℕ → Bool
bytes_eq [] [] = true
bytes_eq [] (b ∷ bs) = false
bytes_eq (a ∷ as') [] = false
bytes_eq (a ∷ as') (b ∷ bs) = a == b && bytes_eq as' bs

module _ (bytes : Buf) where
  unfoldable pub remaining : M RaknetReader ℕ
  remaining r = ok (bytes.remaining r.buf, r)

  -- A call of one of the trait's methods.
  abbrev pub get : {A : Type 0} → (Cursor → A × Cursor) → M RaknetReader A
  get method r = let (v, c) = method r.buf in ok (v, record { buf = c })

  -- `if self.buf.remaining() < n { return Err(RaknetError::ReadPacketBufferError) }`
  abbrev pub need : ℕ → M RaknetReader (Unit {0})
  need n = do left ← remaining; refuse (ltb left n) read_packet_buffer_error

  unfoldable pub read_u8 : M RaknetReader ℕ
  read_u8 r =
      if not (bytes.has_remaining r.buf) then err read_packet_buffer_error else get bytes.get_u8 r

  by_endian :
      {A : Type 0} → Endian → (Cursor → A × Cursor) → (Cursor → A × Cursor) → M RaknetReader A
  by_endian big be le = get be
  by_endian little be le = get le

  unfoldable pub read_u16 : Endian → M RaknetReader ℕ
  unfolding by_endian remaining
  read_u16 n = do need 2; by_endian n bytes.get_u16 bytes.get_u16_le

  three_bytes : Endian → ℕ → ℕ → ℕ → ℕ
  three_bytes big a b c = of_be (0 ∷ a ∷ b ∷ c ∷ [])
  three_bytes little a b c = of_le (a ∷ b ∷ c ∷ 0 ∷ [])

  unfoldable pub read_u24 : Endian → M RaknetReader ℕ
  unfolding three_bytes remaining
  read_u24 n = do
    need 3
    a ← get bytes.get_u8
    b ← get bytes.get_u8
    c ← get bytes.get_u8
    pure (three_bytes n a b c)

  unfoldable pub read_u32 : Endian → M RaknetReader ℕ
  unfolding by_endian remaining
  read_u32 n = do need 4; by_endian n bytes.get_u32 bytes.get_u32_le

  unfoldable pub read_u64 : Endian → M RaknetReader ℕ
  unfolding by_endian remaining
  read_u64 n = do need 8; by_endian n bytes.get_u64 bytes.get_u64_le

  unfoldable pub read_i64 : Endian → M RaknetReader ℤ
  unfolding by_endian remaining
  read_i64 n = do need 8; by_endian n bytes.get_i64 bytes.get_i64_le

  unfoldable pub read_string : M RaknetReader (List ℕ)
  unfolding remaining read_u16
  read_string = do
    need 2
    size ← read_u16 big
    body ← read size
    refuse (not (is_utf8 body)) packet_parse_error
    pure body

  -- Whether the next 16 bytes are the offline magic.
  unfoldable pub read_magic : M RaknetReader Bool
  unfolding remaining
  read_magic = do need 16; bytes' ← read 16; pure (bytes_eq bytes' magic)

  unfoldable pub skip : ℕ → M RaknetReader (Unit {0})
  unfolding remaining
  skip n = do need n; (λ r. ok (tt, record { buf = bytes.advance r.buf n }))
