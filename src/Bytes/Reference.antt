-- ===== src/Bytes/Reference.antt =====
-- A concrete instance of the parameters, which shows that what is asked of them can be met.
use rust_raknet.Prelude.{
  ℕ, ◌+◌, ◌-◌, ◌^◌, ◌≡◌, refl, sym, not, List, ◌++◌, length, take, drop, ◌==◌, append_assoc,
  length-append, drop-append, take-append, arith,
}
use rust_raknet.Prelude.Int.{to_unsigned, of_u64}
use rust_raknet.Bytes.{
  BufMut, BufMutLaws, Appends, Slice, Cursor, between, Buf, Gets, BufLaws, BytesCrate,
}
use rust_raknet.Bytes.Words.{to_be, to_le, of_be, of_le}

module _ {B : Type 0} (room : B → ℕ) (extend : B → List ℕ → B) where
  abbrev pub buf_mut : BufMut B
  buf_mut = record {
    remaining_mut = room;
    put_slice = extend;
    put_u8 = λ b v. extend b (to_be 1 v);
    put_u16 = λ b v. extend b (to_be 2 v);
    put_u16_le = λ b v. extend b (to_le 2 v);
    put_u32 = λ b v. extend b (to_be 4 v);
    put_u32_le = λ b v. extend b (to_le 4 v);
    put_u64 = λ b v. extend b (to_be 8 v);
    put_u64_le = λ b v. extend b (to_le 8 v);
    put_i16 = λ b v. extend b (to_be 2 (to_unsigned (2 ^ 16) v));
    put_i16_le = λ b v. extend b (to_le 2 (to_unsigned (2 ^ 16) v));
    put_i32 = λ b v. extend b (to_be 4 (to_unsigned (2 ^ 32) v));
    put_i32_le = λ b v. extend b (to_le 4 (to_unsigned (2 ^ 32) v));
    put_i64 = λ b v. extend b (to_be 8 (to_unsigned (2 ^ 64) v));
    put_i64_le = λ b v. extend b (to_le 8 (to_unsigned (2 ^ 64) v));
  }

  module _ (written : B → List ℕ)
      (law : (b : B) (bs : List ℕ) → Appends buf_mut written b (extend b bs) bs) where
    pub buf_mut_laws : BufMutLaws buf_mut written
    buf_mut_laws = record {
      put_slice_lem = law;
      put_u8_lem = λ b v. law b _;
      put_u16_lem = λ b v. law b _;
      put_u16_le_lem = λ b v. law b _;
      put_u32_lem = λ b v. law b _;
      put_u32_le_lem = λ b v. law b _;
      put_u64_lem = λ b v. law b _;
      put_u64_le_lem = λ b v. law b _;
      put_i16_lem = λ b v. law b _;
      put_i16_le_lem = λ b v. law b _;
      put_i32_lem = λ b v. law b _;
      put_i32_le_lem = λ b v. law b _;
      put_i64_lem = λ b v. law b _;
      put_i64_le_lem = λ b v. law b _;
    }

abbrev pub vec_buf : BufMut (List ℕ)
vec_buf = buf_mut (λ b. 2 ^ 63 - 1 - length b) ◌++◌

pub vec_law : (b bs : List ℕ) → Appends vec_buf (λ v. v) b (b ++ bs) bs
vec_law b bs h = (refl, omega (arith, length-append b bs))

abbrev pub fill : Slice → List ℕ → Slice
fill s bs = record { filled = s.filled ++ bs; room = s.room - length bs }

abbrev pub slice_buf : BufMut Slice
slice_buf = buf_mut (λ s. s.room) fill

pub slice_law : (s : Slice) (bs : List ℕ) → Appends slice_buf (λ v. v.filled) s (fill s bs) bs
slice_law s bs h = (refl, omega arith)

abbrev pub forward : Cursor → ℕ → Cursor
forward c n = record c { position = c.position + n }

abbrev pub next_bytes : Cursor → ℕ → List ℕ
next_bytes c n = take n (drop c.position c.inner)

abbrev pub get {ℓ} : {A : Type ℓ} → ℕ → (List ℕ → A) → Cursor → A × Cursor
get n value c = (value (next_bytes c n), forward c n)

forward-between :
    (front bytes rest : List ℕ)
    → forward (between front (bytes ++ rest)) (length bytes) ≡ between (front ++ bytes) rest
forward-between front bytes rest = λ i. record {
  inner = sym (append_assoc front bytes rest) i;
  position = sym (length-append front bytes) i;
}

get-Gets {ℓ} : {A : Type ℓ} (n : ℕ) (value : List ℕ → A) → Gets (get n value) n value
get-Gets n value front bytes rest h = λ i. (value (eq i), moved i)
  where
    eq : take n (drop (length front) (front ++ (bytes ++ rest))) ≡ bytes
    eq = rw (drop-append front (bytes ++ rest), ← h) (take-append bytes rest)

    moved : forward (between front (bytes ++ rest)) n ≡ between (front ++ bytes) rest
    moved = rw (← h) (forward-between front bytes rest)

abbrev pub cursor_buf : Buf
cursor_buf = record {
  remaining = λ c. length c.inner - c.position;
  has_remaining = λ c. not (length c.inner - c.position == 0);
  advance = forward;
  get_u8 = get 1 of_be;
  get_u16 = get 2 of_be;
  get_u16_le = get 2 of_le;
  get_u32 = get 4 of_be;
  get_u32_le = get 4 of_le;
  get_u64 = get 8 of_be;
  get_u64_le = get 8 of_le;
  get_i64 = get 8 (λ bs. of_u64 (of_be bs));
  get_i64_le = get 8 (λ bs. of_u64 (of_le bs));
}

pub cursor_buf_laws : BufLaws cursor_buf
cursor_buf_laws = record {
  remaining_lem = λ c. refl;
  has_remaining_lem = λ c. refl;
  advance_lem = forward-between;
  get_u8_lem = get-Gets 1 of_be;
  get_u16_lem = get-Gets 2 of_be;
  get_u16_le_lem = get-Gets 2 of_le;
  get_u32_lem = get-Gets 4 of_be;
  get_u32_le_lem = get-Gets 4 of_le;
  get_u64_lem = get-Gets 8 of_be;
  get_u64_le_lem = get-Gets 8 of_le;
  get_i64_lem = get-Gets 8 (λ bs. of_u64 (of_be bs));
  get_i64_le_lem = get-Gets 8 (λ bs. of_u64 (of_le bs));
}

-- The instance at which the tests run.
unfoldable pub reference : BytesCrate
reference = record {
  vec = vec_buf;
  vec_laws = buf_mut_laws (λ b. 2 ^ 63 - 1 - length b) ◌++◌ (λ b. b) vec_law;
  vec_remaining = λ b. refl;
  slice = slice_buf;
  slice_laws = buf_mut_laws (λ s. s.room) fill (λ s. s.filled) slice_law;
  slice_remaining = λ s. refl;
  cursor = cursor_buf;
  cursor_laws = cursor_buf_laws;
}
