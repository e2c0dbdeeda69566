-- ===== src/Bytes.antt =====
-- What src/datatype.rs takes from the crate `bytes`: the traits `Buf` and `BufMut`, as parameters
-- with their documented behaviour. `std::io::Cursor` is the standard library's.
pub mod Words
pub mod Reference
use rust_raknet.Prelude.{ℕ, ◌+◌, ◌-◌, ◌^◌, ◌≤◌, ◌≡◌, Bool, not, List, [], ◌∷◌, ◌++◌, length, ◌==◌}
use rust_raknet.Prelude.Int.{ℤ, to_unsigned, of_u64}
use Words.{to_be, to_le, of_be, of_le}

-- `BufMut` at an implementor `B`. Each `put` returns the buffer after it.
pub record BufMut (B : Type 0) : Type 0 where
  pub remaining_mut : B → ℕ
  pub put_slice : B → List ℕ → B
  pub put_u8 : B → ℕ → B
  pub put_u16 : B → ℕ → B
  pub put_u16_le : B → ℕ → B
  pub put_u32 : B → ℕ → B
  pub put_u32_le : B → ℕ → B
  pub put_u64 : B → ℕ → B
  pub put_u64_le : B → ℕ → B
  pub put_i16 : B → ℤ → B
  pub put_i16_le : B → ℤ → B
  pub put_i32 : B → ℤ → B
  pub put_i32_le : B → ℤ → B
  pub put_i64 : B → ℤ → B
  pub put_i64_le : B → ℤ → B

-- Where there is room for the bytes, they go behind those that are written. Where there is not,
-- a `put` panics, and nothing is said of the buffer.
abbrev pub Appends : {B : Type 0} → BufMut B → (B → List ℕ) → B → B → List ℕ → Type 0
Appends buf written b b' bytes =
    length bytes ≤ buf.remaining_mut b
    → (written b' ≡ written b ++ bytes)
      × (buf.remaining_mut b' + length bytes ≡ buf.remaining_mut b)

pub record BufMutLaws {B : Type 0} (buf : BufMut B) (written : B → List ℕ) : Type 0 where
  pub put_slice_lem : (b : B) (v : List ℕ) → Appends buf written b (buf.put_slice b v) v
  pub put_u8_lem : (b : B) (v : ℕ) → Appends buf written b (buf.put_u8 b v) (to_be 1 v)
  pub put_u16_lem : (b : B) (v : ℕ) → Appends buf written b (buf.put_u16 b v) (to_be 2 v)
  pub put_u16_le_lem : (b : B) (v : ℕ) → Appends buf written b (buf.put_u16_le b v) (to_le 2 v)
  pub put_u32_lem : (b : B) (v : ℕ) → Appends buf written b (buf.put_u32 b v) (to_be 4 v)
  pub put_u32_le_lem : (b : B) (v : ℕ) → Appends buf written b (buf.put_u32_le b v) (to_le 4 v)
  pub put_u64_lem : (b : B) (v : ℕ) → Appends buf written b (buf.put_u64 b v) (to_be 8 v)
  pub put_u64_le_lem : (b : B) (v : ℕ) → Appends buf written b (buf.put_u64_le b v) (to_le 8 v)
  pub put_i16_lem :
      (b : B) (v : ℤ) → Appends buf written b (buf.put_i16 b v) (to_be 2 (to_unsigned (2 ^ 16) v))
  pub put_i16_le_lem :
      (b : B) (v : ℤ)
      → Appends buf written b (buf.put_i16_le b v) (to_le 2 (to_unsigned (2 ^ 16) v))
  pub put_i32_lem :
      (b : B) (v : ℤ) → Appends buf written b (buf.put_i32 b v) (to_be 4 (to_unsigned (2 ^ 32) v))
  pub put_i32_le_lem :
      (b : B) (v : ℤ)
      → Appends buf written b (buf.put_i32_le b v) (to_le 4 (to_unsigned (2 ^ 32) v))
  pub put_i64_lem :
      (b : B) (v : ℤ) → Appends buf written b (buf.put_i64 b v) (to_be 8 (to_unsigned (2 ^ 64) v))
  pub put_i64_le_lem :
      (b : B) (v : ℤ)
      → Appends buf written b (buf.put_i64_le b v) (to_le 8 (to_unsigned (2 ^ 64) v))

-- `&mut [u8]` as a `BufMut`: the bytes written so far, and the room that is left.
pub record Slice : Type 0 where
  pub filled : List ℕ
  pub room : ℕ

-- `std::io::Cursor<&[u8]>`.
pub record Cursor : Type 0 where
  pub inner : List ℕ
  pub position : ℕ

-- A cursor between the bytes that are read and those that are not.
abbrev pub between : List ℕ → List ℕ → Cursor
between front back = record { inner = front ++ back; position = length front }

-- `Buf` at `Cursor<&[u8]>`. Each `get` returns its value and the cursor after it.
pub record Buf : Type 0 where
  pub remaining : Cursor → ℕ
  pub has_remaining : Cursor → Bool
  pub advance : Cursor → ℕ → Cursor
  pub get_u8 : Cursor → ℕ × Cursor
  pub get_u16 : Cursor → ℕ × Cursor
  pub get_u16_le : Cursor → ℕ × Cursor
  pub get_u32 : Cursor → ℕ × Cursor
  pub get_u32_le : Cursor → ℕ × Cursor
  pub get_u64 : Cursor → ℕ × Cursor
  pub get_u64_le : Cursor → ℕ × Cursor
  pub get_i64 : Cursor → ℤ × Cursor
  pub get_i64_le : Cursor → ℤ × Cursor

-- A `get` of `n` bytes, where they are there; it panics where they are not.
abbrev pub Gets {ℓ} : {A : Type ℓ} → (Cursor → A × Cursor) → ℕ → (List ℕ → A) → Type ℓ
Gets get n value =
    (front bytes rest : List ℕ)
    → length bytes ≡ n
    → get (between front (bytes ++ rest)) ≡ (value bytes, between (front ++ bytes) rest)

pub record BufLaws (buf : Buf) : Type 0 where
  pub remaining_lem : (c : Cursor) → buf.remaining c ≡ length c.inner - c.position
  pub has_remaining_lem : (c : Cursor) → buf.has_remaining c ≡ not (buf.remaining c == 0)
  pub advance_lem :
      (front bytes rest : List ℕ)
      → buf.advance (between front (bytes ++ rest)) (length bytes) ≡ between (front ++ bytes) rest
  pub get_u8_lem : Gets buf.get_u8 1 of_be
  pub get_u16_lem : Gets buf.get_u16 2 of_be
  pub get_u16_le_lem : Gets buf.get_u16_le 2 of_le
  pub get_u32_lem : Gets buf.get_u32 4 of_be
  pub get_u32_le_lem : Gets buf.get_u32_le 4 of_le
  pub get_u64_lem : Gets buf.get_u64 8 of_be
  pub get_u64_le_lem : Gets buf.get_u64_le 8 of_le
  pub get_i64_lem : Gets buf.get_i64 8 (λ bs. of_u64 (of_be bs))
  pub get_i64_le_lem : Gets buf.get_i64_le 8 (λ bs. of_u64 (of_le bs))

-- The crate, at the types that it is used at.
pub record BytesCrate : Type 0 where
  pub vec : BufMut (List ℕ)
  pub vec_laws : BufMutLaws vec (λ b. b)
  pub vec_remaining : (b : List ℕ) → vec.remaining_mut b ≡ 2 ^ 63 - 1 - length b
  pub slice : BufMut Slice
  pub slice_laws : BufMutLaws slice (λ s. s.filled)
  pub slice_remaining : (s : Slice) → slice.remaining_mut s ≡ s.room
  pub cursor : Buf
  pub cursor_laws : BufLaws cursor
