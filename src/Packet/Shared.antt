-- ===== src/Packet/Shared.antt =====
-- How the functions of src/packet.rs read a packet from a whole datagram and write one to a new
-- buffer, and when what one writes another reads back.
use rust_raknet.Prelude.{ℕ, ◌^◌, ◌<◌, ◌≡◌, refl, ap, not, List, [], ◌∷◌, length, arith}
use rust_raknet.Prelude.State.{M, ◌>>=◌, refuse, run}
use rust_raknet.Error.{RaknetError, Result, ok, err, packet_header_error}
use rust_raknet.Error.{and_then}
use rust_raknet.Bytes.{BytesCrate, Buf, BufLaws}
use rust_raknet.Datatype.Writer.{RaknetWriter, get_raw_payload, magic}
use rust_raknet.Datatype.Writer
use rust_raknet.Datatype.Reader.{RaknetReader}
use rust_raknet.Datatype.Reader
use rust_raknet.Datatype.ReadLaws
use rust_raknet.Datatype.Reads.{Reads, Reads-last, Reads-empty_refuse, run-Reads, Fails, run-Fails}
use rust_raknet.Datatype.Writes.{Writes}

-- A function that reads a packet from `buf`.
abbrev pub reading : {A : Type 0} → M RaknetReader A → List ℕ → Result A
reading m buf = run m (Reader.new buf)

-- A function that writes a packet with a new writer and returns its payload.
abbrev pub writing : {A : Type 0} → M (RaknetWriter (List ℕ)) A → Result (List ℕ)
writing m = elim (m Writer.new) [ ok (a, w) ↦ ok (get_raw_payload w) | err e ↦ err e ]

module _ (buf : Buf) where
  -- `read_magic` of packet.rs: another magic is an error.
  unfoldable pub read_magic : M RaknetReader (Unit {0})
  read_magic = do found ← Reader.read_magic buf; refuse (not found) packet_header_error

module _ {buf : Buf} (laws : BufLaws buf) where
  pub read_magic-Reads : Reads (read_magic buf) magic tt
  unfolding read_magic
  read_magic-Reads =
      Reads-last _ (ReadLaws.read_magic-Reads laws) (Reads-empty_refuse packet_header_error refl)

module _ (crate : BytesCrate) where
  abbrev pub VecWrites : {A : Type 0} → M (RaknetWriter (List ℕ)) A → List ℕ → A → Type 0
  VecWrites = Writes crate.vec (λ b. b)

  -- A writer whose bytes fit a `Vec` returns them.
  pub writing_lem :
      {A : Type 0} {m : M (RaknetWriter (List ℕ)) A} {bs : List ℕ} {a : A}
      → VecWrites m bs a
      → length bs < 2 ^ 63
      → writing m ≡ ok bs
  writing_lem {m = m} w h =
      let (w', e, content, room) = w.runs Writer.new (omega (arith, crate.vec_remaining [])) in
      rw (e, writing) (ap ok content)

  -- What a writer writes and a reader reads is read back.
  pub read_back :
      {A B : Type 0} {m : M (RaknetWriter (List ℕ)) A} {r : M RaknetReader B} {bs : List ℕ} {a : A}
      {b : B}
      → VecWrites m bs a
      → Reads r bs b
      → length bs < 2 ^ 63
      → and_then (writing m) (reading r) ≡ ok b
  read_back w r h = rw (writing_lem w h) (run-Reads r)

  pub read_refused :
      {A B : Type 0} {m : M (RaknetWriter (List ℕ)) A} {r : M RaknetReader B} {bs : List ℕ} {a : A}
      {e : RaknetError}
      → VecWrites m bs a
      → Fails r bs e
      → length bs < 2 ^ 63
      → and_then (writing m) (reading r) ≡ err e
  read_refused w r h = rw (writing_lem w h) (run-Fails r)

  -- A packet is written with its identifier first, and read back.
  abbrev pub IsWire : {B : Type 0} → ℕ → Result (List ℕ) → (List ℕ → Result B) → B → Type 0
  IsWire id written read b =
      (rest : List ℕ) × (written ≡ ok (id ∷ rest)) × (read (id ∷ rest) ≡ ok b)

  pub wired :
      {A B : Type 0} {m : M (RaknetWriter (List ℕ)) A} {r : M RaknetReader B} {id : ℕ}
      {rest : List ℕ} {a : A} {b : B}
      → VecWrites m (id ∷ rest) a
      → Reads r (id ∷ rest) b
      → length (id ∷ rest) < 2 ^ 63
      → IsWire id (writing m) (reading r) b
  wired {rest = rest} w r h = (rest, writing_lem w h, run-Reads r)

  pub IsWire-and_then :
      {B : Type 0} {id : ℕ} (w : Result (List ℕ)) (r : List ℕ → Result B) {b : B}
      → IsWire id w r b
      → and_then w r ≡ ok b
  IsWire-and_then w r (rest, written, read) = rw written read
