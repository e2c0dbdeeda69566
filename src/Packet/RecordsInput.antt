-- ===== src/Packet/RecordsInput.antt =====
-- What the readers of acks and nacks return on any datagram, and the writer into a reused buffer.
use rust_raknet.Prelude.{
  ℕ, zero, suc, ◌≤◌, ◌≡◌, refl, ap, subst, List, [], ◌∷◌, length, All, ltb, arith, Bool, true,
  false,
}
use rust_raknet.Prelude.State.{M, pure, refuse, run, >>=-eq-ok}
use rust_raknet.Error.{Result, ok, err, packet_parse_error}
use rust_raknet.Bytes.{BytesCrate, Buf}
use rust_raknet.Datatype.Reader.{RaknetReader, new}
use rust_raknet.Packet.Records.{
  Range, Ack, read_record, read_records, read_sequence_records, read_ack, read_packet_ack,
}

refuse_ok :
    {S : Type 0} (test : Bool) (s : S) {t : S} {x : Unit {0}}
    → refuse test packet_parse_error s ≡ ok (x, t)
    → test ≡ false
unfolding refuse
refuse_ok true s h = cc
refuse_ok false s h = refl

pure_ok : {S A : Type 0} (a : A) (s : S) {b : A} {t : S} → pure a s ≡ ok (b, t) → a ≡ b
unfolding pure
pure_ok a s h = cc

abbrev pub IsForward : Range → Type 0
IsForward (start, end) = start ≤ end

module _ (buf : Buf) where
  read_record-IsForward :
      (s t : RaknetReader) (r : Range) → read_record buf s ≡ ok (r, t) → IsForward r
  unfolding read_record
  read_record-IsForward s t r h =
      let (is_single, s1, e1, h1) = >>=-eq-ok _ _ s h in
      let (u2, s2, e2, h2) = >>=-eq-ok _ _ s1 h1 in
      let (start, s3, e3, h3) = >>=-eq-ok _ _ s2 h2 in
      let (end, s4, e4, h4) = >>=-eq-ok _ _ s3 h3 in
      let (u5, s5, e5, h5) = >>=-eq-ok _ _ s4 h4 in
      subst IsForward (pure_ok (start, end) s5 h5) (forward start end (refuse_ok _ s4 e5))
    where
      forward : (start end : ℕ) → ltb end start ≡ false → start ≤ end
      forward start end c = ground arith

  read_records_shape :
      (n : ℕ) (s t : RaknetReader) (rs : List Range)
      → read_records buf n s ≡ ok (rs, t)
      → (length rs ≡ n) × All IsForward rs
  unfolding read_records
  read_records_shape zero s t rs h =
      subst (λ l. (length l ≡ 0) × All IsForward l) (pure_ok [] s h) (refl, tt)
  read_records_shape (suc n) s t rs h =
      let (r, s1, e1, h1) = >>=-eq-ok _ _ s h in
      let (rest, s2, e2, h2) = >>=-eq-ok _ _ s1 h1 in
      let (size, all) = read_records_shape n s1 s2 rest e2 in
      subst (λ l. (length l ≡ suc n) × All IsForward l) (pure_ok (r ∷ rest) s2 h2)
        (ap suc size, (read_record-IsForward s s1 r e1, all))

  read_sequence_records_shape :
      (n : ℕ) (s t : RaknetReader) (rs : List Range)
      → read_sequence_records buf n s ≡ ok (rs, t)
      → (length rs ≡ n) × All IsForward rs
  unfolding read_sequence_records
  read_sequence_records_shape n s t rs h =
      let (left, s1, e1, h1) = >>=-eq-ok _ _ s h in
      let (u2, s2, e2, h2) = >>=-eq-ok _ _ s1 h1 in read_records_shape n s2 t rs h2

run_ok : {S A : Type 0} (m : M S A) (s : S) {a : A} → run m s ≡ ok a → (t : S) × (m s ≡ ok (a, t))
run_ok {S} {A} m s {a} h = split (m s) refl h
  where
    split :
        (r : Result (A × S))
        → m s ≡ r
        → elim r [ ok (x, s') ↦ ok x | err e ↦ err e ] ≡ ok a
        → (t : S) × (m s ≡ ok (a, t))
    split (ok (x, t)) e h = (t, cc)
    split (err x) e h = cc

read_ack_shape :
    (crate : BytesCrate) (s t : RaknetReader) (p : Ack)
    → read_ack crate s ≡ ok (p, t)
    → (length p.sequences ≡ p.record_count) × All IsForward p.sequences
unfolding read_ack
read_ack_shape crate s t p h =
    let (id, s1, e1, h1) = >>=-eq-ok _ _ s h in
    let (count, s2, e2, h2) = >>=-eq-ok _ _ s1 h1 in
    let (ranges, s3, e3, h3) = >>=-eq-ok _ _ s2 h2 in
    subst (λ (q : Ack). (length q.sequences ≡ q.record_count) × All IsForward q.sequences)
      (pure_ok (record { record_count = count; sequences = ranges }) s3 h3)
      (read_sequence_records_shape crate.cursor count s2 s3 ranges e3)

-- Whatever the datagram, an ack that read_packet_ack returns has as many ranges as it announces,
-- and none of them is reversed.
pub read_packet_ack_shape :
    (crate : BytesCrate) (datagram : List ℕ) (p : Ack)
    → read_packet_ack crate datagram ≡ ok p
    → (length p.sequences ≡ p.record_count) × All IsForward p.sequences
unfolding read_packet_ack
read_packet_ack_shape crate datagram p h =
    let (t, e) = run_ok (read_ack crate) (new datagram) h in
    read_ack_shape crate (new datagram) t p e
