-- ===== src/Packet/InternalAddresses.antt =====
-- The list of internal addresses in a connection's handshake: it ends 16 bytes before the packet.
use rust_raknet.Prelude.{
  ℕ, zero, suc, ◌*◌, ◌≤◌, ◌<◌, ◌≡◌, refl, sym, ap, ◌∙◌, subst, List, [], ◌∷◌, ◌++◌, length,
  replicate, All, lt→ltb, append-nil, append_assoc, arith,
}
use rust_raknet.Prelude.State.{M, ◌>>=◌, refuse, run, bind_ok}
use rust_raknet.Error.{ok}
use rust_raknet.Bytes.{Buf, BufLaws, BufMut, BufMutLaws}
use rust_raknet.Bytes.Words.{sizes}
use rust_raknet.Datatype.Reader.{RaknetReader, new, remaining}
use rust_raknet.Datatype.Address.{SocketAddr, read_address}
use rust_raknet.Datatype.AddressLaws.{
  IsSocketAddr, address_bytes, length-address_bytes, write_address-Writes, read_address-Reads,
}
use rust_raknet.Datatype.Reads.{reader_at, Reads}
use rust_raknet.Datatype.ReadLaws.{remaining_at}
use rust_raknet.Datatype.Writes.{Writes, Writes-bind, Writes-pure}
use rust_raknet.Packet.Connected.{
  sixteen_left, next_address, internal_loop, read_internal_addresses, write_addresses,
}

-- `m` takes `bytes` off an input that ends with `tail`.
pub record ReadsBefore {A : Type 0} (tail : List ℕ) (m : M RaknetReader A) (bytes : List ℕ) (a : A)
    : Type 0 where
  pub runs :
      (front : List ℕ)
      → m (reader_at front (bytes ++ tail)) ≡ ok (a, reader_at (front ++ bytes) tail)

pub before :
    {A : Type 0} {m : M RaknetReader A} {bytes : List ℕ} {a : A} (tail : List ℕ)
    → Reads m bytes a
    → ReadsBefore tail m bytes a
before tail r = record { runs = λ front. r.runs front tail }

pub ReadsBefore-bind :
    {A B : Type 0} {m : M RaknetReader A} (f : A → M RaknetReader B) {bs cs tail : List ℕ} {a : A}
    {b : B}
    → ReadsBefore (cs ++ tail) m bs a
    → ReadsBefore tail (f a) cs b
    → ReadsBefore tail (m >>= f) (bs ++ cs) b
ReadsBefore-bind {m = m} f {bs} {cs} {tail} {a} {b} r q = record {
  runs = λ front.
      ap (λ l. (m >>= f) (reader_at front l)) (append_assoc bs cs tail)
      ∙ bind_ok m f (reader_at front (bs ++ (cs ++ tail))) (r.runs front)
      ∙ q.runs (front ++ bs)
      ∙ ap (λ l. ok (b, reader_at l tail)) (append_assoc front bs cs);
}

pub run_before :
    {A : Type 0} {m : M RaknetReader A} {bs : List ℕ} {a : A}
    → ReadsBefore [] m bs a
    → run m (new bs) ≡ ok a
run_before {m = m} {bs} {a} r =
    subst (λ l. run m (new l) ≡ ok a) (append-nil bs) (rw (r.runs [], run))

-- The encodings of several addresses, one after the other.
abbrev pub addresses_bytes : List SocketAddr → List ℕ
addresses_bytes [] = []
addresses_bytes (a ∷ as') = address_bytes a ++ addresses_bytes as'

pub length-addresses_bytes :
    (count : ℕ) (a : SocketAddr)
    → IsSocketAddr a
    → length (addresses_bytes (replicate count a)) ≤ 29 * count
length-addresses_bytes zero a h = omega arith
length-addresses_bytes (suc count) a h =
    omega (sizes, length-address_bytes a h, length-addresses_bytes count a h)

module _ {buf : Buf} (laws : BufLaws buf) where
  remaining_ok :
      (front back : List ℕ)
      → remaining buf (reader_at front back) ≡ ok (length back, reader_at front back)
  unfolding remaining
  remaining_ok front back = ap (λ n. ok (n, reader_at front back)) (remaining_at laws front back)

  sixteen_left_ok : (left : ℕ) (r : RaknetReader) → left ≡ 16 → sixteen_left buf left r ≡ ok (tt, r)
  unfolding sixteen_left refuse
  sixteen_left_ok left r h = ground arith

  next_address_ends :
      (rest : M RaknetReader (Unit {0})) (left : ℕ) (r : RaknetReader)
      → left ≡ 16
      → next_address buf rest left r ≡ ok (tt, r)
  unfolding next_address
  next_address_ends rest left r h = rw (h, next_address) (sixteen_left_ok 16 r refl)

  next_address_reads :
      (rest : M RaknetReader (Unit {0})) (left : ℕ)
      → 16 < left
      → next_address buf rest left ≡ (read_address buf >>= λ _. rest)
  unfolding next_address
  next_address_reads rest left h = rw (lt→ltb 16 left h)

  loop_ends :
      (rounds : ℕ) (front tail : List ℕ)
      → length tail ≡ 16
      → internal_loop buf rounds (reader_at front tail) ≡ ok (tt, reader_at front tail)
  unfolding internal_loop
  loop_ends zero front tail h =
      bind_ok _ _ _ (remaining_ok front tail) ∙ sixteen_left_ok (length tail) _ h
  loop_ends (suc rounds) front tail h =
      bind_ok _ _ _ (remaining_ok front tail) ∙ next_address_ends _ (length tail) _ h

  address_then :
      (rest : M RaknetReader (Unit {0})) (a : SocketAddr) (front tail : List ℕ)
      → IsSocketAddr a
      → 16 ≤ length tail
      → (remaining buf >>= next_address buf rest) (reader_at front (address_bytes a ++ tail))
        ≡ rest (reader_at (front ++ address_bytes a) tail)
  address_then rest a front tail ha h =
      bind_ok _ _ _ (remaining_ok front (address_bytes a ++ tail))
      ∙ ap (λ m. m (reader_at front (address_bytes a ++ tail)))
          (next_address_reads rest _ (omega (sizes, length-address_bytes a ha)))
      ∙ bind_ok (read_address buf) (λ _. rest) _ ((read_address-Reads laws a ha).runs front tail)

  loop_reads :
      (rounds : ℕ) (addresses : List SocketAddr) (front tail : List ℕ)
      → length addresses ≤ rounds
      → All IsSocketAddr addresses
      → length tail ≡ 16
      → internal_loop buf rounds (reader_at front (addresses_bytes addresses ++ tail))
        ≡ ok (tt, reader_at (front ++ addresses_bytes addresses) tail)
  unfolding internal_loop
  loop_reads rounds [] front tail h all t =
      loop_ends rounds front tail t ∙ ap (λ l. ok (tt, reader_at l tail)) (sym (append-nil front))
  loop_reads zero (a ∷ as') front tail h all t = absurd (omega arith)
  loop_reads (suc rounds) (a ∷ as') front tail h all t =
      ap (λ l. internal_loop buf (suc rounds) (reader_at front l))
        (append_assoc (address_bytes a) (addresses_bytes as') tail)
      ∙ address_then (internal_loop buf rounds) a front (addresses_bytes as' ++ tail) all.0
          (omega (sizes, t))
      ∙ loop_reads rounds as' (front ++ address_bytes a) tail (omega arith) all.1 t
      ∙ ap (λ l. ok (tt, reader_at l tail))
          (append_assoc front (address_bytes a) (addresses_bytes as'))

  -- At most 20 addresses, with 16 bytes behind them.
  pub read_internal_addresses_reads :
      (addresses : List SocketAddr) (tail : List ℕ)
      → length addresses ≤ 20
      → All IsSocketAddr addresses
      → length tail ≡ 16
      → ReadsBefore tail (read_internal_addresses buf) (addresses_bytes addresses) tt
  unfolding read_internal_addresses
  read_internal_addresses_reads addresses tail h all t = record {
    runs = λ front. loop_reads 20 addresses front tail h all t;
  }

module _ {B : Type 0} {buf : BufMut B} {written : B → List ℕ} (laws : BufMutLaws buf written) where
  pub write_addresses-Writes :
      (count : ℕ) (a : SocketAddr)
      → Writes buf written (write_addresses buf count a) (addresses_bytes (replicate count a)) tt
  unfolding write_addresses
  write_addresses-Writes zero a = Writes-pure tt
  write_addresses-Writes (suc count) a =
      Writes-bind _ (write_address-Writes laws a) (write_addresses-Writes count a)
