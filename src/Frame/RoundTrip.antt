-- ===== src/Frame/RoundTrip.antt =====
-- Datagrams of several frames: what `serialize_group_into` packs, `decode_into` unpacks.
use rust_raknet.Prelude.{
  ℕ, suc, ◌-◌, ◌≤◌, ◌<◌, ◌≡◌, ap, ◌∙◌, Bool, true, false, List, [], ◌∷◌, ◌++◌, length, take, drop,
  replicate, ◌==◌, if◌then◌else◌, take-append, ==_refl, arith,
}
use rust_raknet.Error.{ok}
use rust_raknet.Bytes.{BytesCrate, Slice}
use rust_raknet.Bytes.Words.{to_le, sizes}
use rust_raknet.Datatype.Writer.{from_buffer}
use rust_raknet.Frame.Reliability.{Reliability, reliability_of}
use rust_raknet.Frame.Packet.{FrameSetPacket, deref, is_fragment, bad_lengths, validate}
use rust_raknet.Frame.Encode.{header_id, encode_header, group_frame}
use rust_raknet.Frame.EncodeLaws.{given, fields_bytes, write_header-Writes}
use rust_raknet.Frame.DecodeLaws.{IsFrame}

length-given : (test : Bool) (bs : List ℕ) → length (given test bs) ≤ length bs
length-given true bs = omega arith
length-given false bs = omega arith

module _ {H : Type 0} (bytes_deref : H → List ℕ) where
  -- A frame that `validate` lets through, with its reliability, whose fields have the width at
  -- which they are written. This is the range of their types but for the sequence, reliable,
  -- sequenced and ordered numbers: 24 bits of a `u32`, which `validate` does not look at.
  pub record Encodable (kind : Reliability) (f : FrameSetPacket H) : Type 0 where
    pub kind_lem : reliability_of f.flags ≡ ok kind
    pub ranges : IsFrame f
    pub valid : validate bytes_deref f ≡ ok tt

  pub validate_lem :
      (f : FrameSetPacket H)
      → validate bytes_deref f ≡ ok tt
      → (is_fragment f ≡ true → f.fragment_index < f.compound_size)
        × (length (deref bytes_deref f.payload) ≡ f.length_in_bytes)
        × (f.length_in_bytes ≤ 8191)
  unfolding validate bad_lengths
  validate_lem f e = ground arith

  pub length_in_bytes-limit :
      (kind : Reliability) (f : FrameSetPacket H) → Encodable kind f → f.length_in_bytes ≤ 8191
  length_in_bytes-limit kind f e = (validate_lem f e.valid).2

  unfoldable pub header_bytes : Reliability → FrameSetPacket H → List ℕ
  header_bytes kind f = (header_id f ∷ []) ++ (to_le 3 f.sequence_number ++ fields_bytes kind f)

  pub length-fields_bytes :
      (kind : Reliability) (f : FrameSetPacket H)
      → (3 ≤ length (fields_bytes kind f)) × (length (fields_bytes kind f) ≤ 23)
  unfolding fields_bytes
  length-fields_bytes kind f = omega (sizes, length-given)

  module _ (crate : BytesCrate) where
    encode_header_ok :
        (kind : Reliability) (f : FrameSetPacket H) (header : List ℕ)
        → Encodable kind f
        → encode_header bytes_deref crate f header
          ≡ ok (
            length (header_bytes kind f),
            header_bytes kind f ++ drop (length (header_bytes kind f)) header,
          )
    unfolding encode_header header_bytes
    encode_header_ok kind f header e =
        let start : Slice = record { filled = []; room = 32 } in
        let (w, done, content, room) =
          (write_header-Writes crate.slice_laws kind f e.kind_lem e.ranges.flags_range
              e.ranges.channel_range (omega (arith, length_in_bytes-limit kind f e))).runs
            (from_buffer start)
            (omega (sizes, crate.slice_remaining start, length-fields_bytes kind f)) in
        let used : 32 - crate.slice.remaining_mut w.buf ≡ length (header_bytes kind f) =
          omega (sizes, crate.slice_remaining start) in
        rw (e.valid, done) (λ i. ok (used i, content i ++ drop (length (content i)) header))

    take_header :
        (kind : Reliability) (f : FrameSetPacket H)
        → take
            (length (header_bytes kind f))
            (header_bytes kind f ++ drop (length (header_bytes kind f)) (replicate 32 0))
          ≡ header_bytes kind f
    take_header kind f = take-append (header_bytes kind f) _

    -- The first frame with its whole header, another one from its flags on.
    abbrev pub part : ℕ → Reliability → FrameSetPacket H → List ℕ
    part index kind f =
        drop (if index == 0 then 0 else 4) (header_bytes kind f) ++ deref bytes_deref f.payload

    pub group_frame_ok :
        (index : ℕ) (kind : Reliability) (f : FrameSetPacket H)
        → Encodable kind f
        → group_frame bytes_deref crate f.sequence_number index f ≡ ok (part index kind f)
    unfolding group_frame
    group_frame_ok index kind f e =
        rw (
          ==_refl f.sequence_number,
          encode_header_ok kind f (replicate 32 0) e,
          take_header kind f,
        )

    later_part :
        (index : ℕ) (kind : Reliability) (f : FrameSetPacket H)
        → part (suc index) kind f ≡ fields_bytes kind f ++ deref bytes_deref f.payload
    unfolding header_bytes to_le
    later_part index kind f = let e : (suc index == 0) ≡ false = ground arith in rw e

    pub later_frame_ok :
        (index : ℕ) (kind : Reliability) (f : FrameSetPacket H)
        → Encodable kind f
        → group_frame bytes_deref crate f.sequence_number (suc index) f
          ≡ ok (fields_bytes kind f ++ deref bytes_deref f.payload)
    later_frame_ok index kind f e =
        group_frame_ok (suc index) kind f e ∙ ap ok (later_part index kind f)
