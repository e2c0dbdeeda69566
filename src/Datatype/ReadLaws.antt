-- ===== src/Datatype/ReadLaws.antt =====
-- What each read of `RaknetReader` returns on bytes that are there.
use rust_raknet.Prelude.{
  ℕ, ◌+◌, ◌*◌, ◌/◌, ◌%◌, ◌^◌, ◌≤◌, ◌<◌, ◌≡◌, refl, sym, ap, ◌∙◌, subst, true, false, not, List, [],
  ◌∷◌, ◌++◌, length, ltb, append_assoc, length-append, drop-append, take-append, arith,
}
use rust_raknet.Prelude.Int.{ℤ, IsI64, to_unsigned, of_u64, to_u64-lt, of_u64-to_unsigned}
use rust_raknet.Prelude.State.{M, ◌>>=◌, ◌>>◌, refuse, bind_ok}
use rust_raknet.Prelude.Utf8.{is_utf8}
use rust_raknet.Error.{packet_parse_error, ok}
use rust_raknet.Bytes.{Cursor, between, Buf, BufLaws, Gets}
use rust_raknet.Bytes.Words.{
  of_be, of_le, to_be, to_le, length-to_be, of_be-to_be_2, of_be-to_be_4, of_be-to_be_8,
}
use rust_raknet.Datatype.{big, little}
use rust_raknet.Datatype.Writer.{magic}
use rust_raknet.Datatype.Reader.{
  RaknetReader, read, bytes_eq, remaining, get, need, read_u8, read_u16, read_u24, read_u32,
  read_u64, read_i64, read_string, read_magic, skip,
}
use rust_raknet.Datatype.Reads.{reader_at, Reads, Reads-bind, Reads-last, Reads-pure, Reads-refuse}

enough : (bs rest : List ℕ) → ltb (length (bs ++ rest)) (length bs) ≡ false
enough bs rest = ground (arith, length-append bs rest)

pub moved :
    (front bs rest : List ℕ)
    → ◌≡◌ {A = Cursor}
        (record { inner = front ++ (bs ++ rest); position = length front + length bs })
        (between (front ++ bs) rest)
moved front bs rest = λ i. record {
  inner = sym (append_assoc front bs rest) i;
  position = sym (length-append front bs) i;
}

-- `read` does not depend on the crate.
pub read-Reads : (bs : List ℕ) → Reads (read (length bs)) bs bs
unfolding read
read-Reads bs = record {
  runs = λ front rest.
      rw (drop-append front (bs ++ rest), enough bs rest, take-append bs rest)
        (λ i. ok (bs, record { buf = moved front bs rest i }));
}

byte_value : (b : ℕ) → b * 256 ^ 0 + 0 ≡ b
byte_value b = omega arith

three : (v : ℕ) → v < 2 ^ 24 → of_le (v % 256 ∷ v / 256 % 256 ∷ v / 256 / 256 % 256 ∷ 0 ∷ []) ≡ v
unfolding of_le
three v h = omega arith

module _ {bytes : Buf} (laws : BufLaws bytes) where
  pub remaining_at : (front back : List ℕ) → bytes.remaining (between front back) ≡ length back
  remaining_at front back =
      omega (arith, laws.remaining_lem (between front back), length-append front back)

  need_ok :
      (n : ℕ) (front back : List ℕ)
      → n ≤ length back
      → need bytes n (reader_at front back) ≡ ok (tt, reader_at front back)
  unfolding remaining refuse ◌>>=◌
  need_ok n front back h = ground (arith, remaining_at front back)

  pub Reads-need :
      {B : Type 0} {k : M RaknetReader B} {n : ℕ} {bs : List ℕ} {b : B}
      → n ≤ length bs
      → Reads k bs b
      → Reads (need bytes n >> k) bs b
  Reads-need {k = k} {n} {bs} h r = record {
    runs = λ front rest.
        bind_ok (need bytes n) (λ _. k) (reader_at front (bs ++ rest))
          (need_ok n front (bs ++ rest) (omega (arith, length-append bs rest)))
        ∙ r.runs front rest;
  }

  -- What is left covers the bytes that are to be read.
  pub Reads-remaining :
      {B : Type 0} (f : ℕ → M RaknetReader B) {bs : List ℕ} {b : B}
      → ((left : ℕ) → length bs ≤ left → Reads (f left) bs b)
      → Reads (remaining bytes >>= f) bs b
  unfolding remaining
  Reads-remaining f {bs} {b} each = record {
    runs = λ front rest.
        bind_ok (remaining bytes) f (reader_at front (bs ++ rest))
          (ap (λ n. ok (n, reader_at front (bs ++ rest))) (remaining_at front (bs ++ rest)))
        ∙ (each (length (bs ++ rest)) (omega (arith, length-append bs rest))).runs front rest;
  }

  Gets-Reads :
      {A : Type 0} (method : Cursor → A × Cursor) {n : ℕ} {value : List ℕ → A} (bs : List ℕ)
      → Gets method n value
      → length bs ≡ n
      → Reads (get bytes method) bs (value bs)
  Gets-Reads method bs g h = record {
    runs = λ front rest. ap (λ p. ok (p.0, record { buf = p.1 })) (g front bs rest h);
  }

  fixed :
      {A : Type 0} (method : Cursor → A × Cursor) {n : ℕ} {value : List ℕ → A} {v : A} (bs : List ℕ)
      → Gets method n value
      → length bs ≡ n
      → value bs ≡ v
      → Reads (need bytes n >> get bytes method) bs v
  fixed method bs g h e =
      Reads-need (omega arith) (subst (Reads (get bytes method) bs) e (Gets-Reads method bs g h))

  has_remaining_at :
      (front : List ℕ) (b : ℕ) (back : List ℕ)
      → bytes.has_remaining (between front (b ∷ back)) ≡ true
  has_remaining_at front b back =
      ground
        (arith, laws.has_remaining_lem (between front (b ∷ back)), remaining_at front (b ∷ back))

  -- A byte as it stands, of any value.
  pub read_u8-Reads : (b : ℕ) → Reads (read_u8 bytes) (b ∷ []) b
  unfolding read_u8 of_be
  read_u8-Reads b = record {
    runs = λ front rest. rw (has_remaining_at front b rest) (
        rw (laws.get_u8_lem front (b ∷ []) rest refl)
          (ap (λ v. ok (v, reader_at (front ++ b ∷ []) rest)) (byte_value b)));
  }

  pub read_u16-Reads : (v : ℕ) → v < 2 ^ 16 → Reads (read_u16 bytes big) (to_be 2 v) v
  unfolding read_u16
  read_u16-Reads v h =
      fixed bytes.get_u16 (to_be 2 v) laws.get_u16_lem (length-to_be 2 v) (of_be-to_be_2 v h)

  pub read_u32-Reads : (v : ℕ) → v < 2 ^ 32 → Reads (read_u32 bytes big) (to_be 4 v) v
  unfolding read_u32
  read_u32-Reads v h =
      fixed bytes.get_u32 (to_be 4 v) laws.get_u32_lem (length-to_be 4 v) (of_be-to_be_4 v h)

  pub read_u64-Reads : (v : ℕ) → v < 2 ^ 64 → Reads (read_u64 bytes big) (to_be 8 v) v
  unfolding read_u64
  read_u64-Reads v h =
      fixed bytes.get_u64 (to_be 8 v) laws.get_u64_lem (length-to_be 8 v) (of_be-to_be_8 v h)

  pub read_i64-Reads :
      (v : ℤ) → IsI64 v → Reads (read_i64 bytes big) (to_be 8 (to_unsigned (2 ^ 64) v)) v
  unfolding read_i64
  read_i64-Reads v h =
      fixed bytes.get_i64 (to_be 8 (to_unsigned (2 ^ 64) v)) laws.get_i64_lem (length-to_be 8 _)
        (ap of_u64 (of_be-to_be_8 _ (to_u64-lt v)) ∙ of_u64-to_unsigned v h)

  get_u8-Reads : (b : ℕ) → Reads (get bytes bytes.get_u8) (b ∷ []) b
  unfolding of_be
  get_u8-Reads b =
      subst (Reads _ (b ∷ [])) (byte_value b)
        (Gets-Reads bytes.get_u8 (b ∷ []) laws.get_u8_lem refl)

  pub read_u24-Reads : (v : ℕ) → v < 2 ^ 24 → Reads (read_u24 bytes little) (to_le 3 v) v
  unfolding read_u24 to_le of_le
  read_u24-Reads v h = Reads-need (omega arith) (
      Reads-bind _ (get_u8-Reads (v % 256)) (
        Reads-bind _ (get_u8-Reads (v / 256 % 256)) (
          Reads-last _ (get_u8-Reads (v / 256 / 256 % 256))
            (subst (Reads _ []) (three v h) (Reads-pure _)))))

  pub skip-Reads : (bs : List ℕ) → Reads (skip bytes (length bs)) bs tt
  unfolding skip
  skip-Reads bs = Reads-need (omega arith) (record {
    runs = λ front rest. ap (λ c. ok (tt, record { buf = c })) (laws.advance_lem front bs rest);
  })

  -- The next 16 bytes, compared with the magic.
  pub read_16-Reads :
      (bs : List ℕ) → length bs ≡ 16 → Reads (read_magic bytes) bs (bytes_eq bs magic)
  unfolding read_magic
  read_16-Reads bs h =
      Reads-need (omega arith)
        (Reads-last _ (subst (λ n. Reads (read n) bs bs) h (read-Reads bs)) (Reads-pure _))

  pub read_magic-Reads : Reads (read_magic bytes) magic true
  unfolding bytes_eq
  read_magic-Reads = read_16-Reads magic refl

  pub read_string-Reads :
      (body : List ℕ)
      → length body < 2 ^ 16
      → is_utf8 body ≡ true
      → Reads (read_string bytes) (to_be 2 (length body) ++ body) body
  unfolding read_string
  read_string-Reads body h valid =
      Reads-need
        (omega (arith, length-append (to_be 2 (length body)) body, length-to_be 2 (length body)))
        (Reads-bind _ (read_u16-Reads (length body) h) (
          Reads-last _ (read-Reads body)
            (Reads-refuse packet_parse_error (ap not valid) (Reads-pure body))))
