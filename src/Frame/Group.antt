-- ===== src/Frame/Group.antt =====
-- Datagrams of several frames: what `serialize_group_into` packs, `decode_into` unpacks.
use rust_raknet.Prelude.{
  ℕ, zero, suc, ◌≤◌, ◌≡◌, refl, sym, ap, ◌∙◌, subst, inl, inr, Bool, true, false, not, ◌&&◌, List,
  [], ◌∷◌, ◌++◌, map, length, All, ltb, leb, ◌==◌, append-nil, append_assoc, length-append, arith,
}
use rust_raknet.Prelude.State.{◌>>=◌, pure, refuse, bind_ok}
use rust_raknet.Error.{
  RaknetError, Result, ok, err, and_then, packet_header_error, packet_parse_error,
}
use rust_raknet.Bytes.{BytesCrate}
use rust_raknet.Bytes.Words.{to_le, sizes}
use rust_raknet.Datatype.Reader.{RaknetReader, new}
use rust_raknet.Datatype.Reads.{reader_at}
use rust_raknet.Datatype.ReadLaws.{read_u8-Reads, read_u24-Reads}
use rust_raknet.Frame.Reliability.{Reliability}
use rust_raknet.Frame.Packet.{FrameSetPacket, deref}
use rust_raknet.Frame.Encode.{header_id, group_frame, group_loop, serialize_group_into}
use rust_raknet.Frame.EncodeLaws.{fields_bytes, header_id-cases}
use rust_raknet.Frame.Decode.{decode_frame, decode_loop, decode_start, decode, decode_into}
use rust_raknet.Frame.DecodeLaws.{received, decode_frame-Reads}
use rust_raknet.Frame.RoundTrip.{
  Encodable, validate_lem, header_bytes, group_frame_ok, later_frame_ok, length-fields_bytes,
}

module _ {H : Type 0} (bytes_deref : H → List ℕ) where
  abbrev pub Sendable : Type 0
  Sendable = (kind : Reliability) × (f : FrameSetPacket H) × Encodable bytes_deref kind f

  abbrev pub frame_of : Sendable → FrameSetPacket H
  frame_of s = s.1

  abbrev pub received_of : Sendable → FrameSetPacket H
  received_of s = received bytes_deref s.0 s.1

  abbrev pub InDatagram : ℕ → Sendable → Type 0
  InDatagram n s = s.1.sequence_number ≡ n

  abbrev one : Sendable → List ℕ
  one s = fields_bytes s.0 s.1 ++ deref bytes_deref s.1.payload

  abbrev body : List Sendable → List ℕ
  body [] = []
  body (s ∷ ss) = one s ++ body ss

  length-body : (ss : List Sendable) → length ss ≤ length (body ss)
  length-body [] = omega arith
  length-body (s ∷ ss) = omega (sizes, length-fields_bytes bytes_deref s.0 s.1, length-body ss)

  module _ (crate : BytesCrate) where
    group_loop_rest :
        (index n : ℕ) (ss : List Sendable)
        → All (InDatagram n) ss
        → group_loop bytes_deref crate n (suc index) (map frame_of ss) ≡ ok (body ss)
    unfolding group_loop
    group_loop_rest index n [] h = refl
    group_loop_rest index n (s ∷ ss) (here, h) = rw (
      subst (λ m. group_frame bytes_deref crate m (suc index) s.1 ≡ ok (one s)) here
          (later_frame_ok bytes_deref crate index s.0 s.1 s.2),
      group_loop_rest (suc index) n ss h,
    )

    datagram : Sendable → List Sendable → List ℕ
    datagram s ss = (header_id s.1 ∷ []) ++ (to_le 3 s.1.sequence_number ++ body (s ∷ ss))

    serialize_group_ok :
        (s : Sendable) (ss : List Sendable)
        → All (InDatagram s.1.sequence_number) ss
        → serialize_group_into bytes_deref crate (map frame_of (s ∷ ss)) ≡ ok (datagram s ss)
    unfolding serialize_group_into datagram header_bytes
    serialize_group_ok s ss h =
        rw
          (
            group_frame_ok bytes_deref crate 0 s.0 s.1 s.2,
            group_loop_rest 0 s.1.sequence_number ss h,
          )
          (ap ok (simp append_assoc))

    at_end : (front : List ℕ) → ltb (length front) (length (front ++ [])) ≡ false
    at_end front = ground (arith, length-append front [])

    more_left :
        (s : Sendable) (ss : List Sendable) (front : List ℕ)
        → ltb (length front) (length (front ++ body (s ∷ ss))) ≡ true
    more_left s ss front = ground (arith, length-append front (body (s ∷ ss)), length-body (s ∷ ss))

    first_frame :
        (s : Sendable) (ss : List Sendable) (n : ℕ) (front : List ℕ)
        → s.1.sequence_number ≡ n
        → decode_frame crate.cursor false n (reader_at front (body (s ∷ ss)))
          ≡ ok (received_of s, reader_at (front ++ one s) (body ss))
    first_frame s ss n front here =
        let (fragment, payload, limit) = validate_lem bytes_deref s.1 s.2.valid in
        subst
          (λ m.
            decode_frame crate.cursor false m (reader_at front (body (s ∷ ss)))
            ≡ ok (received_of s, reader_at (front ++ one s) (body ss)))
          here
          ((decode_frame-Reads crate.cursor_laws bytes_deref s.0 s.1 s.2.kind_lem s.2.ranges
              fragment payload (omega (arith, limit))).runs
            front (body ss))

    round :
        (fuel n : ℕ) (r : RaknetReader)
        → ltb r.buf.position (length r.buf.inner) ≡ true
        → decode_loop crate.cursor {H = H} (suc fuel) false n r
          ≡ (decode_frame crate.cursor {H = H} false n
                >>= (λ f. decode_loop crate.cursor {H = H} fuel false n >>= (λ fs. pure (f ∷ fs))))
              r
    unfolding decode_loop
    round fuel n r h = rw (h)

    no_more :
        (fuel n : ℕ) (r : RaknetReader)
        → ltb r.buf.position (length r.buf.inner) ≡ false
        → decode_loop crate.cursor {H = H} fuel false n r ≡ ok ([], r)
    unfolding decode_loop
    no_more zero n r h = rw (h)
    no_more (suc fuel) n r h = rw (h)

    decode_loop-body :
        (fuel n : ℕ) (ss : List Sendable) (front : List ℕ)
        → length ss ≤ fuel
        → All (InDatagram n) ss
        → decode_loop crate.cursor fuel false n (reader_at front (body ss))
          ≡ ok (map received_of ss, reader_at (front ++ body ss) [])
    unfolding pure
    decode_loop-body fuel n [] front h all =
        no_more fuel n (reader_at front []) (at_end front)
        ∙ ap (λ l. ok ([], reader_at l [])) (sym (append-nil front))
    decode_loop-body zero n (s ∷ ss) front h all = absurd (omega arith)
    decode_loop-body (suc fuel) n (s ∷ ss) front h (here, all) =
        round fuel n (reader_at front (body (s ∷ ss))) (more_left s ss front)
        ∙ bind_ok _ _ _ (first_frame s ss n front here)
        ∙ bind_ok _ _ _ (decode_loop-body fuel n ss (front ++ one s) (omega arith) all)
        ∙ ap (λ l. ok (received_of s ∷ map received_of ss, reader_at l []))
            (append_assoc front (one s) (body ss))

    passes :
        {test : Bool} (e : RaknetError) (r : RaknetReader)
        → test ≡ false
        → refuse test e r ≡ ok (tt, r)
    unfolding refuse
    passes e r h = rw (h)

    is_frame_set :
        (s : Sendable) → not (leb 0x80 (header_id s.1) && leb (header_id s.1) 0x8d) ≡ false
    is_frame_set s = elim (header_id-cases s.1) [ inl h ↦ rw (h) | inr h ↦ rw (h) ]

    more_than_header :
        (s : Sendable) (ss : List Sendable) (front : List ℕ)
        → (length front == length (front ++ body (s ∷ ss))) ≡ false
    more_than_header s ss front =
        ground (arith, length-append front (body (s ∷ ss)), length-body (s ∷ ss))

    start_reads :
        (s : Sendable) (ss : List Sendable)
        → decode_start crate.cursor (new (datagram s ss))
          ≡ ok (
            s.1.sequence_number,
            reader_at ((header_id s.1 ∷ []) ++ to_le 3 s.1.sequence_number) (body (s ∷ ss)),
          )
    unfolding decode_start datagram pure
    start_reads s ss =
        bind_ok _ _ _ (
          (read_u8-Reads crate.cursor_laws (header_id s.1)).runs []
            (to_le 3 s.1.sequence_number ++ body (s ∷ ss)))
        ∙ bind_ok _ _ _ (passes packet_header_error _ (is_frame_set s))
        ∙ bind_ok _ _ _ (
            (read_u24-Reads crate.cursor_laws s.1.sequence_number s.2.ranges.sequence_range).runs
              (header_id s.1 ∷ []) (body (s ∷ ss)))
        ∙ bind_ok _ _ _ (
            passes packet_parse_error
              (reader_at ((header_id s.1 ∷ []) ++ to_le 3 s.1.sequence_number) (body (s ∷ ss)))
              (more_than_header s ss ((header_id s.1 ∷ []) ++ to_le 3 s.1.sequence_number)))

    -- Any frames that validate lets through and whose fields have the width at which they are
    -- written, at least one and all of one sequence number, are packed by serialize_group_into
    -- into a datagram from which decode_into returns them in order, the fields that their flags do
    -- not announce as 0 and their payloads as their own. The width is the range of the type of the
    -- field, but 24 bits of a u32 for the sequence, reliable, sequenced and ordered numbers, which
    -- validate does not look at.
    pub decode_into-serialize_group_into :
        (s : Sendable) (ss : List Sendable)
        → All (InDatagram s.1.sequence_number) ss
        → and_then
            (serialize_group_into bytes_deref crate (map frame_of (s ∷ ss)))
            (decode_into crate.cursor)
          ≡ ok (map received_of (s ∷ ss))
    unfolding decode_into decode datagram
    decode_into-serialize_group_into s ss h = rw (serialize_group_ok s ss h) (
        ap finish (
          bind_ok _ _ _ (start_reads s ss)
          ∙ decode_loop-body (length (datagram s ss)) s.1.sequence_number (s ∷ ss)
              ((header_id s.1 ∷ []) ++ to_le 3 s.1.sequence_number) (fuel s ss) (refl, h)))
      where
        finish : Result (List (FrameSetPacket H) × RaknetReader) → Result (List (FrameSetPacket H))
        finish r = elim r [ ok (frames, _) ↦ ok frames | err e ↦ err e ]

        fuel : (s : Sendable) (ss : List Sendable) → length (s ∷ ss) ≤ length (datagram s ss)
        fuel s ss = omega (sizes, length-body (s ∷ ss))
