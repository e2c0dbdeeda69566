-- ===== src/Frame/DecodeLaws.antt =====
-- Decoding the bytes of a frame.
use rust_raknet.Prelude.{
  ℕ, ◌+◌, ◌*◌, ◌/◌, ◌%◌, ◌^◌, ◌<◌, ◌≡◌, refl, sym, ap, ◌∙◌, subst, Bool, true, false, not, none,
  List, [], ◌∷◌, ◌++◌, length, ltb, ◌==◌, append-nil, append_assoc, length-append, drop-append,
  take-append, arith,
}
use rust_raknet.Prelude.State.{M}
use rust_raknet.Error.{ok, packet_parse_error}
use rust_raknet.Bytes.{Buf, BufLaws}
use rust_raknet.Bytes.Words.{to_be, to_le}
use rust_raknet.Datatype.Reader.{RaknetReader, read_slice}
use rust_raknet.Datatype.Reads.{
  reader_at, Reads, Reads-bind, Reads-last, Reads-pure, Reads-refuse, Reads-lift,
}
use rust_raknet.Datatype.ReadLaws.{
  moved, read_u8-Reads, read_u16-Reads, read_u24-Reads, read_u32-Reads,
}
use rust_raknet.Frame.Reliability.{
  Reliability, reliability_of, has_reliable_index, has_sequenced_index, has_ordered_index,
}
use rust_raknet.Frame.Packet.{FrameSetPacket, owned, deref, is_fragment}
use rust_raknet.Frame.Decode.{optional, ordered_fields, fragment_fields, keep_payload, decode_frame}
use rust_raknet.Frame.EncodeLaws.{given, fields_bytes}

-- A field that the wire format has under a test.
abbrev pub carried : Bool → ℕ → ℕ
carried true v = v
carried false v = 0

module _ {H : Type 0} where
  -- The ranges of a frame's fields.
  pub record IsFrame (f : FrameSetPacket H) : Type 0 where
    pub sequence_range : f.sequence_number < 2 ^ 24
    pub flags_range : f.flags < 2 ^ 8
    pub reliable_range : f.reliable_frame_index < 2 ^ 24
    pub sequenced_range : f.sequenced_frame_index < 2 ^ 24
    pub ordered_range : f.ordered_frame_index < 2 ^ 24
    pub channel_range : f.order_channel < 2 ^ 8
    pub size_range : f.compound_size < 2 ^ 32
    pub id_range : f.compound_id < 2 ^ 16
    pub index_range : f.fragment_index < 2 ^ 32

module _ {H : Type 0} (bytes_deref : H → List ℕ) where
  -- A frame as it arrives: the fields that its flags do not announce are 0, and its payload is
  -- its own.
  abbrev pub received : Reliability → FrameSetPacket H → FrameSetPacket H
  received r f = record {
    sequence_number = f.sequence_number;
    flags = f.flags;
    length_in_bytes = f.length_in_bytes;
    reliable_frame_index = carried (has_reliable_index r) f.reliable_frame_index;
    sequenced_frame_index = carried (has_sequenced_index r) f.sequenced_frame_index;
    ordered_frame_index = carried (has_ordered_index r) f.ordered_frame_index;
    order_channel = carried (has_ordered_index r) f.order_channel;
    compound_size = carried (is_fragment f) f.compound_size;
    compound_id = carried (is_fragment f) f.compound_id;
    fragment_index = carried (is_fragment f) f.fragment_index;
    payload = owned (deref bytes_deref f.payload);
    shared_payload = none;
  }

read_slice-Reads : (bs : List ℕ) → (n : ℕ) → length bs ≡ n → Reads (read_slice n) bs bs
unfolding read_slice
read_slice-Reads bs n h = record {
  runs = λ front rest.
      rw (inside front rest, drop-append front (bs ++ rest), ← h, take-append bs rest)
        (λ i. ok (bs, record { buf = moved front bs rest i }));
}
  where
    inside : (front rest : List ℕ) → ltb (length (front ++ (bs ++ rest))) (length front + n) ≡ false
    inside front rest = ground (arith, length-append front (bs ++ rest), length-append bs rest)

module _ {m : M RaknetReader ℕ} {bs : List ℕ} {v : ℕ} where
  optional-Reads :
      (test : Bool) → Reads m bs v → Reads (optional test m 0) (given test bs) (carried test v)
  optional-Reads true r = r
  optional-Reads false r = Reads-pure 0

module _ {m : M RaknetReader (ℕ × ℕ)} {bs : List ℕ} {v w : ℕ} where
  optional_pair-Reads :
      (test : Bool)
      → Reads m bs (v, w)
      → Reads (optional test m (0, 0)) (given test bs) (carried test v, carried test w)
  optional_pair-Reads true r = r
  optional_pair-Reads false r = Reads-pure (0, 0)

module _ {m : M RaknetReader (ℕ × ℕ × ℕ)} {bs : List ℕ} {v w x : ℕ} where
  optional_triple-Reads :
      (test : Bool)
      → (test ≡ true → Reads m bs (v, w, x))
      → Reads
          (optional test m (0, 0, 0))
          (given test bs)
          (carried test v, carried test w, carried test x)
  optional_triple-Reads true r = r refl
  optional_triple-Reads false r = Reads-pure (0, 0, 0)

Reads-value :
    {A : Type 0} {m : M RaknetReader A} {a : A}
    → ((r : RaknetReader) → m r ≡ ok (a, r))
    → Reads m [] a
Reads-value {a = a} h = record {
  runs = λ front rest.
      h (reader_at front rest) ∙ ap (λ l. ok (a, reader_at l rest)) (sym (append-nil front));
}

eight : (n : ℕ) → n * 8 / 8 ≡ n
eight n = omega arith

whole : (n : ℕ) → not (n * 8 % 8 == 0) ≡ false
whole n = let e : n * 8 % 8 ≡ 0 = omega arith in rw e

module _ {buf : Buf} (laws : BufLaws buf) {H : Type 0} (bytes_deref : H → List ℕ) where
  ordered-Reads :
      (f : FrameSetPacket H)
      → IsFrame f
      → Reads
          (ordered_fields buf)
          (to_le 3 f.ordered_frame_index ++ (f.order_channel ∷ []))
          (f.ordered_frame_index, f.order_channel)
  unfolding ordered_fields
  ordered-Reads f v =
      Reads-bind _ (read_u24-Reads laws f.ordered_frame_index v.ordered_range)
        (Reads-last _ (read_u8-Reads laws f.order_channel) (Reads-pure _))

  fragment-Reads :
      (f : FrameSetPacket H)
      → IsFrame f
      → f.fragment_index < f.compound_size
      → Reads
          (fragment_fields buf)
          (to_be 4 f.compound_size ++ (to_be 2 f.compound_id ++ to_be 4 f.fragment_index))
          (f.compound_size, f.compound_id, f.fragment_index)
  unfolding fragment_fields
  fragment-Reads f v h = Reads-bind _ (read_u32-Reads laws f.compound_size v.size_range) (
      Reads-bind _ (read_u16-Reads laws f.compound_id v.id_range) (
        Reads-last _ (read_u32-Reads laws f.fragment_index v.index_range)
          (Reads-refuse packet_parse_error (ground arith) (Reads-pure _))))

  -- The bytes of a frame with its payload, to the right of each other.
  abbrev frame_bytes : Reliability → FrameSetPacket H → List ℕ
  frame_bytes r f =
      (f.flags ∷ [])
      ++ (to_be 2 (f.length_in_bytes * 8)
          ++ (given (has_reliable_index r) (to_le 3 f.reliable_frame_index)
              ++ (given (has_sequenced_index r) (to_le 3 f.sequenced_frame_index)
                  ++ (given (has_ordered_index r)
                        (to_le 3 f.ordered_frame_index ++ (f.order_channel ∷ []))
                      ++ (given (is_fragment f) (
                            to_be 4 f.compound_size
                            ++ (to_be 2 f.compound_id ++ to_be 4 f.fragment_index))
                          ++ deref bytes_deref f.payload)))))

  frame_bytes_lem :
      (r : Reliability) (f : FrameSetPacket H)
      → frame_bytes r f ≡ fields_bytes r f ++ deref bytes_deref f.payload
  unfolding fields_bytes
  frame_bytes_lem r f = simp append_assoc

  -- One frame of a datagram that is not moved.
  pub decode_frame-Reads :
      (r : Reliability) (f : FrameSetPacket H)
      → reliability_of f.flags ≡ ok r
      → IsFrame f
      → (is_fragment f ≡ true → f.fragment_index < f.compound_size)
      → length (deref bytes_deref f.payload) ≡ f.length_in_bytes
      → f.length_in_bytes * 8 < 2 ^ 16
      → Reads
          (decode_frame buf false f.sequence_number)
          (fields_bytes r f ++ deref bytes_deref f.payload)
          (received bytes_deref r f)
  unfolding decode_frame is_fragment keep_payload
  decode_frame-Reads r f hr v hf hl hb =
      subst (λ l. Reads (decode_frame buf false f.sequence_number) l (received bytes_deref r f))
        (frame_bytes_lem r f)
        (Reads-bind _ (read_u8-Reads laws f.flags) (
          Reads-bind _ (read_u16-Reads laws (f.length_in_bytes * 8) hb) (
            Reads-refuse packet_parse_error (whole f.length_in_bytes) (
              Reads-bind _ (Reads-lift hr) (
                Reads-bind _
                  (optional-Reads (has_reliable_index r)
                    (read_u24-Reads laws f.reliable_frame_index v.reliable_range))
                  (Reads-bind _
                    (optional-Reads (has_sequenced_index r)
                      (read_u24-Reads laws f.sequenced_frame_index v.sequenced_range))
                    (Reads-bind _ (optional_pair-Reads (has_ordered_index r) (ordered-Reads f v)) (
                      Reads-bind _
                        (optional_triple-Reads (is_fragment f) (λ e. fragment-Reads f v (hf e)))
                        (Reads-last _
                          (read_slice-Reads (deref bytes_deref f.payload)
                            (f.length_in_bytes * 8 / 8) (hl ∙ sym (eight f.length_in_bytes)))
                          (Reads-value λ t.
                            ap
                              (λ n.
                                ok (record (received bytes_deref r f) { length_in_bytes = n }, t))
                              (eight f.length_in_bytes)))))))))))
