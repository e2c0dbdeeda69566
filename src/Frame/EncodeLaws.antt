-- ===== src/Frame/EncodeLaws.antt =====
-- The bytes of a frame.
use rust_raknet.Prelude.{
  ℕ, ◌*◌, ◌%◌, ◌^◌, ◌<◌, ◌≡◌, ◌⊎◌, Bool, true, false, List, [], ◌∷◌, ◌++◌, arith,
}
use rust_raknet.Prelude.State.{M}
use rust_raknet.Error.{ok}
use rust_raknet.Bytes.{BufMut, BufMutLaws}
use rust_raknet.Bytes.Words.{to_be, to_le}
use rust_raknet.Datatype.{big}
use rust_raknet.Datatype.Writer.{RaknetWriter, write_u16}
use rust_raknet.Datatype.Writes.{
  Writes, Writes-bind, Writes-pure, Writes-lift, write_u8-Writes, write_u16-Writes,
  write_u24-Writes, write_u32-Writes,
}
use rust_raknet.Frame.Reliability.{
  Reliability, reliability_of, has_reliable_index, has_sequenced_index, has_ordered_index,
}
use rust_raknet.Frame.Packet.{FrameSetPacket, is_fragment, is_reliable, is_sequenced, is_ordered}
use rust_raknet.Frame.Encode.{when, header_id, write_frame_fields, write_header}

-- Bytes that are there under a test.
abbrev pub given : Bool → List ℕ → List ℕ
given true bs = bs
given false bs = []

module _ {B : Type 0} {buf : BufMut B} {written : B → List ℕ} where
  when-Writes :
      (test : Bool) {m : M (RaknetWriter B) (Unit {0})} {bs : List ℕ}
      → Writes buf written m bs tt
      → Writes buf written (when test m) (given test bs) tt
  when-Writes true w = w
  when-Writes false w = Writes-pure tt

module _ {H : Type 0} where
  -- The wire format from the flags on, for a frame of reliability `r`.
  unfoldable pub fields_bytes : Reliability → FrameSetPacket H → List ℕ
  fields_bytes r f =
      (f.flags ∷ [])
      ++ (to_be 2 (f.length_in_bytes * 8)
          ++ (given (has_reliable_index r) (to_le 3 f.reliable_frame_index)
              ++ (given (has_sequenced_index r) (to_le 3 f.sequenced_frame_index)
                  ++ (given (has_ordered_index r)
                        (to_le 3 f.ordered_frame_index ++ (f.order_channel ∷ []))
                      ++ given (is_fragment f) (
                          to_be 4 f.compound_size
                          ++ (to_be 2 f.compound_id ++ to_be 4 f.fragment_index))))))

  pub header_id-cases : (f : FrameSetPacket H) → (header_id f ≡ 0x84) ⊎ (header_id f ≡ 0x8c)
  unfolding header_id
  header_id-cases f = ground arith

  module _ {B : Type 0} {buf : BufMut B} {written : B → List ℕ}
      (laws : BufMutLaws buf written) where
    bits-Writes :
        (f : FrameSetPacket H)
        → f.length_in_bytes * 8 < 2 ^ 16
        → Writes buf written
            (write_u16 buf (f.length_in_bytes * 8 % 2 ^ 16) big)
            (to_be 2 (f.length_in_bytes * 8))
            tt
    bits-Writes f h =
        let same : f.length_in_bytes * 8 % 2 ^ 16 ≡ f.length_in_bytes * 8 = omega arith in
        rw same (write_u16-Writes laws (f.length_in_bytes * 8))

    pub write_frame_fields-Writes :
        (r : Reliability) (f : FrameSetPacket H)
        → reliability_of f.flags ≡ ok r
        → f.flags < 2 ^ 8
        → f.order_channel < 2 ^ 8
        → f.length_in_bytes * 8 < 2 ^ 16
        → Writes buf written (write_frame_fields buf f) (fields_bytes r f) tt
    unfolding write_frame_fields is_reliable is_sequenced is_ordered fields_bytes
    write_frame_fields-Writes r f hr hf hc hl = Writes-bind _ (write_u8-Writes laws f.flags hf) (
        Writes-bind _ (bits-Writes f hl) (
          Writes-lift _ (rw hr) (
            Writes-bind _
              (when-Writes (has_reliable_index r) (write_u24-Writes laws f.reliable_frame_index))
              (Writes-lift _ (rw hr) (
                Writes-bind _
                  (when-Writes (has_sequenced_index r)
                    (write_u24-Writes laws f.sequenced_frame_index))
                  (Writes-lift _ (rw hr) (
                    Writes-bind _
                      (when-Writes (has_ordered_index r) (
                        Writes-bind _ (write_u24-Writes laws f.ordered_frame_index)
                          (write_u8-Writes laws f.order_channel hc)))
                      (when-Writes (is_fragment f) (
                        Writes-bind _ (write_u32-Writes laws f.compound_size) (
                          Writes-bind _ (write_u16-Writes laws f.compound_id)
                            (write_u32-Writes laws f.fragment_index)))))))))))

    pub write_header-Writes :
        (r : Reliability) (f : FrameSetPacket H)
        → reliability_of f.flags ≡ ok r
        → f.flags < 2 ^ 8
        → f.order_channel < 2 ^ 8
        → f.length_in_bytes * 8 < 2 ^ 16
        → Writes buf written
            (write_header buf f)
            ((header_id f ∷ []) ++ (to_le 3 f.sequence_number ++ fields_bytes r f))
            tt
    unfolding write_header
    write_header-Writes r f hr hf hc hl =
        Writes-bind _ (write_u8-Writes laws (header_id f) (ground (arith, header_id-cases f))) (
          Writes-bind _ (write_u24-Writes laws f.sequence_number)
            (write_frame_fields-Writes r f hr hf hc hl))
