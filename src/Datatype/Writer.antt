-- ===== src/Datatype/Writer.antt =====
-- `RaknetWriter` of src/datatype.rs. A write returns `Ok(())` and the writer after it.
use rust_raknet.Prelude.{ℕ, List, [], ◌∷◌, length, ltb}
use rust_raknet.Prelude.Int.{ℤ}
use rust_raknet.Prelude.State.{M, ◌>>◌, pure, refuse}
use rust_raknet.Error.{ok, packet_parse_error}
use rust_raknet.Bytes.{BufMut}
use rust_raknet.Bytes.Words.{to_be, to_le}
use rust_raknet.Datatype.{Endian, big, little}

pub record RaknetWriter (B : Type 0) : Type 0 where
  pub buf : B

abbrev pub magic : List ℕ
magic =
    0x00 ∷ 0xff ∷ 0xff ∷ 0x00 ∷ 0xfe ∷ 0xfe ∷ 0xfe ∷ 0xfe ∷ 0xfd ∷ 0xfd ∷ 0xfd ∷ 0xfd ∷ 0x12 ∷ 0x34
    ∷ 0x56 ∷ 0x78 ∷ []

-- `RaknetWriter::new()` and `get_raw_payload`, at `Vec<u8>`.
abbrev pub new : RaknetWriter (List ℕ)
new = record { buf = [] }

abbrev pub get_raw_payload : RaknetWriter (List ℕ) → List ℕ
get_raw_payload w = w.buf

abbrev pub from_buffer : {B : Type 0} → B → RaknetWriter B
from_buffer b = record { buf = b }

-- A call of one of the trait's methods.
abbrev pub put : {A : Type 0} {B : Type 0} → (B → A → B) → A → M (RaknetWriter B) (Unit {0})
put method v w = ok (tt, record { buf = method w.buf v })

module _ {B : Type 0} (bytes : BufMut B) where
  unfoldable pub write : List ℕ → M (RaknetWriter B) (Unit {0})
  write v = put bytes.put_slice v

  unfoldable pub write_u8 : ℕ → M (RaknetWriter B) (Unit {0})
  write_u8 v = put bytes.put_u8 v

  unfoldable pub write_i16 : ℤ → Endian → M (RaknetWriter B) (Unit {0})
  write_i16 v big = put bytes.put_i16 v
  write_i16 v little = put bytes.put_i16_le v

  unfoldable pub write_u16 : ℕ → Endian → M (RaknetWriter B) (Unit {0})
  write_u16 v big = put bytes.put_u16 v
  write_u16 v little = put bytes.put_u16_le v

  put_each : List ℕ → M (RaknetWriter B) (Unit {0})
  put_each [] = pure tt
  put_each (b ∷ bs) = do put bytes.put_u8 b; put_each bs

  -- `a[1]`, `a[2]`, `a[3]` of `v.to_be_bytes()`, which are the three bytes of `to_be 3`.
  unfoldable pub write_u24 : ℕ → Endian → M (RaknetWriter B) (Unit {0})
  unfolding put_each
  write_u24 v big = put_each (to_be 3 v)
  write_u24 v little = put_each (to_le 3 v)

  unfoldable pub write_u32 : ℕ → Endian → M (RaknetWriter B) (Unit {0})
  write_u32 v big = put bytes.put_u32 v
  write_u32 v little = put bytes.put_u32_le v

  unfoldable pub write_i32 : ℤ → Endian → M (RaknetWriter B) (Unit {0})
  write_i32 v big = put bytes.put_i32 v
  write_i32 v little = put bytes.put_i32_le v

  unfoldable pub write_i64 : ℤ → Endian → M (RaknetWriter B) (Unit {0})
  write_i64 v big = put bytes.put_i64 v
  write_i64 v little = put bytes.put_i64_le v

  -- `Ok(magic.len())`
  unfoldable pub write_magic : M (RaknetWriter B) ℕ
  write_magic = do put bytes.put_slice magic; pure (length magic)

  unfoldable pub write_u64 : ℕ → Endian → M (RaknetWriter B) (Unit {0})
  write_u64 v big = put bytes.put_u64 v
  write_u64 v little = put bytes.put_u64_le v

  -- A `&str` is its bytes.
  unfoldable pub write_string : List ℕ → M (RaknetWriter B) (Unit {0})
  write_string body = do
    refuse (ltb 65_535 (length body)) packet_parse_error
    put bytes.put_u16 (length body)
    put bytes.put_slice body
