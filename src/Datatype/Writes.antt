-- ===== src/Datatype/Writes.antt =====
-- What a write puts behind the bytes written so far, and how writes compose.
use rust_raknet.Prelude.{
  ℕ, ◌+◌, ◌/◌, ◌%◌, ◌^◌, ◌≤◌, ◌<◌, ◌≡◌, refl, sym, ap, ◌∙◌, subst, Bool, false, List, [], ◌∷◌, ◌++◌,
  length, append-nil, append_assoc, length-append, arith,
}
use rust_raknet.Prelude.Int.{ℤ, to_unsigned}
use rust_raknet.Prelude.State.{M, ◌>>=◌, ◌>>◌, pure, refuse, lift, bind_ok}
use rust_raknet.Error.{RaknetError, packet_parse_error, Result, ok}
use rust_raknet.Bytes.{BufMut, BufMutLaws, Appends}
use rust_raknet.Bytes.Words.{to_be, to_le}
use rust_raknet.Datatype.{big, little}
use rust_raknet.Datatype.Writer.{
  RaknetWriter, magic, put, write, write_u8, write_i16, write_u16, write_u24, write_u32, write_i32,
  write_i64, write_magic, write_u64, write_string,
}

module _ {B : Type 0} (buf : BufMut B) (written : B → List ℕ) where
  -- Where there is room for `bytes`, `m` returns `a` and has appended them.
  pub record Writes {A : Type 0} (m : M (RaknetWriter B) A) (bytes : List ℕ) (a : A) : Type 0 where
    pub runs :
        (w : RaknetWriter B)
        → length bytes ≤ buf.remaining_mut w.buf
        → (w' : RaknetWriter B) × (m w ≡ ok (a, w'))
          × (written w'.buf ≡ written w.buf ++ bytes)
          × (buf.remaining_mut w'.buf + length bytes ≡ buf.remaining_mut w.buf)

module _ {B : Type 0} {buf : BufMut B} {written : B → List ℕ} where
  pub Writes-bind :
      {A C : Type 0} {m : M (RaknetWriter B) A} (f : A → M (RaknetWriter B) C) {bs cs : List ℕ}
      {a : A} {c : C}
      → Writes buf written m bs a
      → Writes buf written (f a) cs c
      → Writes buf written (m >>= f) (bs ++ cs) c
  Writes-bind {m = m} f {bs} {cs} r q = record {
    runs = λ w h.
        let size = length-append bs cs in
        let (w1, e1, b1, n1) = r.runs w (omega arith) in
        let (w2, e2, b2, n2) = q.runs w1 (omega arith) in
        (
          w2,
          bind_ok m f w e1 ∙ e2,
          b2 ∙ ap (λ l. l ++ cs) b1 ∙ append_assoc (written w.buf) bs cs,
          omega arith,
        );
  }

  pub Writes-pure : {A : Type 0} (a : A) → Writes buf written (pure a) [] a
  unfolding pure
  Writes-pure a = record { runs = λ w h. (w, refl, sym (append-nil (written w.buf)), omega arith) }

  pub Writes-last :
      {A C : Type 0} {m : M (RaknetWriter B) A} (f : A → M (RaknetWriter B) C) {bs : List ℕ} {a : A}
      {c : C}
      → Writes buf written m bs a
      → Writes buf written (f a) [] c
      → Writes buf written (m >>= f) bs c
  Writes-last {m = m} f {bs} {c = c} r q =
      subst (λ l. Writes buf written (m >>= f) l c) (append-nil bs) (Writes-bind f r q)

  pub Writes-refuse :
      {C : Type 0} {test : Bool} (e : RaknetError) {k : M (RaknetWriter B) C} {bs : List ℕ} {c : C}
      → test ≡ false
      → Writes buf written k bs c
      → Writes buf written (refuse test e >> k) bs c
  unfolding refuse ◌>>=◌
  Writes-refuse e {k} {bs} {c} h r =
      subst (λ t. Writes buf written (refuse t e >> k) bs c) (sym h) (record { runs = r.runs })

  -- A computation that leaves the writer alone.
  pub Writes-lift :
      {A C : Type 0} {r : Result A} (f : A → M (RaknetWriter B) C) {bs : List ℕ} {a : A} {c : C}
      → r ≡ ok a
      → Writes buf written (f a) bs c
      → Writes buf written (lift r >>= f) bs c
  unfolding lift ◌>>=◌
  Writes-lift f {bs} {c = c} h w =
      subst (λ t. Writes buf written (lift t >>= f) bs c) (sym h) (record { runs = w.runs })

  put-Writes :
      {A : Type 0} (method : B → A → B) (v : A) {bs : List ℕ}
      → ((b : B) → Appends buf written b (method b v) bs)
      → Writes buf written (put method v) bs tt
  put-Writes method v law = record {
    runs = λ w h.
        let (content, room) = law w.buf h in (record { buf = method w.buf v }, refl, content, room);
  }

  module _ (laws : BufMutLaws buf written) where
    pub write-Writes : (v : List ℕ) → Writes buf written (write buf v) v tt
    unfolding write
    write-Writes v = put-Writes buf.put_slice v (λ b. laws.put_slice_lem b v)

    pub write_u8-Writes : (v : ℕ) → v < 2 ^ 8 → Writes buf written (write_u8 buf v) (v ∷ []) tt
    unfolding write_u8 to_be
    write_u8-Writes v h =
        subst (λ b. Writes buf written (write_u8 buf v) (b ∷ []) tt) (byte v h)
          (put-Writes buf.put_u8 v (λ b. laws.put_u8_lem b v))
      where
        byte : (v : ℕ) → v < 2 ^ 8 → v / 256 ^ 0 % 256 ≡ v
        byte v h = omega arith

    pub write_u16-Writes : (v : ℕ) → Writes buf written (write_u16 buf v big) (to_be 2 v) tt
    unfolding write_u16
    write_u16-Writes v = put-Writes buf.put_u16 v (λ b. laws.put_u16_lem b v)

    pub write_i16_le-Writes :
        (v : ℤ) → Writes buf written (write_i16 buf v little) (to_le 2 (to_unsigned (2 ^ 16) v)) tt
    unfolding write_i16
    write_i16_le-Writes v = put-Writes buf.put_i16_le v (λ b. laws.put_i16_le_lem b v)

    pub write_u32-Writes : (v : ℕ) → Writes buf written (write_u32 buf v big) (to_be 4 v) tt
    unfolding write_u32
    write_u32-Writes v = put-Writes buf.put_u32 v (λ b. laws.put_u32_lem b v)

    pub write_i32-Writes :
        (v : ℤ) → Writes buf written (write_i32 buf v big) (to_be 4 (to_unsigned (2 ^ 32) v)) tt
    unfolding write_i32
    write_i32-Writes v = put-Writes buf.put_i32 v (λ b. laws.put_i32_lem b v)

    pub write_u64-Writes : (v : ℕ) → Writes buf written (write_u64 buf v big) (to_be 8 v) tt
    unfolding write_u64
    write_u64-Writes v = put-Writes buf.put_u64 v (λ b. laws.put_u64_lem b v)

    pub write_i64-Writes :
        (v : ℤ) → Writes buf written (write_i64 buf v big) (to_be 8 (to_unsigned (2 ^ 64) v)) tt
    unfolding write_i64
    write_i64-Writes v = put-Writes buf.put_i64 v (λ b. laws.put_i64_lem b v)

    put_u8-Writes : (v : ℕ) → Writes buf written (put buf.put_u8 v) (v % 256 ∷ []) tt
    unfolding to_be
    put_u8-Writes v =
        subst (λ b. Writes buf written (put buf.put_u8 v) (b ∷ []) tt) (byte v)
          (put-Writes buf.put_u8 v (λ b. laws.put_u8_lem b v))
      where
        byte : (v : ℕ) → v / 256 ^ 0 % 256 ≡ v % 256
        byte v = omega arith

    pub write_u24-Writes : (v : ℕ) → Writes buf written (write_u24 buf v little) (to_le 3 v) tt
    unfolding write_u24 to_le
    write_u24-Writes v =
        subst (λ l. Writes buf written (write_u24 buf v little) l tt) (low v)
          (Writes-bind _ (put_u8-Writes (v % 256)) (
            Writes-bind _ (put_u8-Writes (v / 256 % 256))
              (Writes-last _ (put_u8-Writes (v / 256 / 256 % 256)) (Writes-pure tt))))
      where
        low :
            (v : ℕ)
            → v % 256 % 256 ∷ v / 256 % 256 % 256 ∷ v / 256 / 256 % 256 % 256 ∷ []
              ≡ v % 256 ∷ v / 256 % 256 ∷ v / 256 / 256 % 256 ∷ []
        low v = ground arith

    pub write_magic-Writes : Writes buf written (write_magic buf) magic 16
    unfolding write_magic
    write_magic-Writes =
        Writes-last _ (put-Writes buf.put_slice magic (λ b. laws.put_slice_lem b magic))
          (Writes-pure 16)

    pub write_string-Writes :
        (body : List ℕ)
        → length body < 2 ^ 16
        → Writes buf written (write_string buf body) (to_be 2 (length body) ++ body) tt
    unfolding write_string
    write_string-Writes body h = Writes-refuse packet_parse_error (ground arith) (
        Writes-bind _ (put-Writes buf.put_u16 (length body) (λ b. laws.put_u16_lem b (length body)))
          (put-Writes buf.put_slice body (λ b. laws.put_slice_lem b body)))
