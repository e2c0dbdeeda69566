-- ===== src/Send/Delivery.antt =====
-- On the bytes of a message, from `insert_payload` to `merge`.
use rust_raknet.Prelude.{
  ℕ, zero, suc, ◌-◌, ◌^◌, ◌<◌, ◌≡◌, refl, ap, ◌∙◌, inl, inr, Bool, true, false, Option, List, ◌++◌,
  length, ltb, arith, Bool-cases,
}
use rust_raknet.Error.{RaknetError, ok, refuse, packet_size_exceed_mtu}
use rust_raknet.Frame.Reliability.{
  Reliability, unreliable, unreliable_sequenced, reliable, reliable_ordered, reliable_sequenced,
  reliability_of,
}
use rust_raknet.Frame.Packet.{FrameSetPacket, deref, from_payload, new}
use rust_raknet.Receive.Fragment.{Fragment, full, merge}
use rust_raknet.Receive.MergeLaws.{payloads, AreThere, merge-payloads}
use rust_raknet.Send.Queue.{SendQ, div_ceil, max_payload, required_bytes}
use rust_raknet.Send.Insert.{
  copied_payload, owned_payload, fragment, insert_as, insert_payload, next_ordered, next_sequenced,
  sequenced_frame, too_long, reserve,
}
use rust_raknet.Send.InsertLaws.{WhenOk, WhenOk-bind, WhenOk-ok}
use rust_raknet.Send.Parts.{IsSlice, HoldsBytes, fragment-payloads_all}
use rust_raknet.Send.Queued.{
  WhenOk-bind_eq, required_bytes-length, max_payload-mtu, joined, pushed_joined,
  owned_payload-bytes, copied_payload-bytes, insert_fragments-joined,
}

pub not_refused :
    (test : Bool) (e : RaknetError) (u : Unit {0}) → refuse test e ≡ ok u → test ≡ false
not_refused true e u h = cc
not_refused false e u h = refl

module _ {H : Type 0} (bytes_deref : H → List ℕ) (bytes_slice : H → ℕ → ℕ → H) where
  insert_as-joined :
      (r : Reliability) (q : SendQ H) (buf : List ℕ) (data' : Option H) (channel size : ℕ)
      → IsSlice bytes_deref bytes_slice
      → HoldsBytes bytes_deref bytes_slice buf data'
      → 0 < size
      → size < 2 ^ 16
      → length buf < 2 ^ 32
      → too_long bytes_deref bytes_slice r (length buf) size ≡ false
      → joined bytes_deref bytes_slice
          (insert_as bytes_deref bytes_slice r q buf data' channel size).packets
        ≡ joined bytes_deref bytes_slice q.packets ++ buf
  unfolding insert_as next_ordered next_sequenced sequenced_frame from_payload
  insert_as-joined unreliable q buf data' channel size law holds positive small bound fits =
      pushed_joined bytes_deref bytes_slice q _ (owned_payload bytes_deref bytes_slice buf data')
        buf refl (owned_payload-bytes bytes_deref bytes_slice buf data' holds)
  insert_as-joined unreliable_sequenced q buf data' channel size law holds positive small bound
        fits =
      pushed_joined bytes_deref bytes_slice q _ (owned_payload bytes_deref bytes_slice buf data')
        buf refl (owned_payload-bytes bytes_deref bytes_slice buf data' holds)
  insert_as-joined reliable q buf data' channel size law holds positive small bound fits =
      pushed_joined bytes_deref bytes_slice q _ (copied_payload bytes_deref bytes_slice buf data')
        buf refl
        (copied_payload-bytes bytes_deref bytes_slice buf data' holds (ground (arith, fits)))
  insert_as-joined reliable_ordered q buf data' channel size law holds positive small bound fits =
      elim (Bool-cases (ltb size (length buf))) [
        | inl e ↦ rw e (
            insert_fragments-joined bytes_deref bytes_slice q buf data' channel size law holds
              positive small bound)
        | inr e ↦ rw e (
            pushed_joined bytes_deref bytes_slice q _
              (copied_payload bytes_deref bytes_slice buf data') buf refl
              (copied_payload-bytes bytes_deref bytes_slice buf data' holds (ground (arith, e))))
      ]
  insert_as-joined reliable_sequenced q buf data' channel size law holds positive small bound fits =
      pushed_joined bytes_deref bytes_slice q _ (copied_payload bytes_deref bytes_slice buf data')
        buf refl
        (copied_payload-bytes bytes_deref bytes_slice buf data' holds (ground (arith, fits)))

  -- Every way in: the message is queued whole, or refused.
  queued_whole :
      (q : SendQ H) (r : Reliability) (buf : List ℕ) (channel : ℕ) (data' : Option H)
      → IsSlice bytes_deref bytes_slice
      → HoldsBytes bytes_deref bytes_slice buf data'
      → q.mtu < 2 ^ 16
      → WhenOk
          (λ (q' : SendQ H).
            joined bytes_deref bytes_slice q'.packets
            ≡ joined bytes_deref bytes_slice q.packets ++ buf)
          (insert_payload bytes_deref bytes_slice q r buf channel data')
  unfolding insert_payload reserve
  queued_whole q r buf channel data' law holds mtu =
      let P = λ (q' : SendQ H).
        joined bytes_deref bytes_slice q'.packets
        ≡ joined bytes_deref bytes_slice q.packets ++ buf in
      WhenOk-bind_eq P (required_bytes q r (length buf)) _ λ reserved e.
        WhenOk-bind P (refuse _ packet_size_exceed_mtu) _ λ _.
          WhenOk-bind_eq P (max_payload q) _ λ size f.
            WhenOk-bind_eq P
              (refuse (too_long bytes_deref bytes_slice r (length buf) size) packet_size_exceed_mtu)
              (λ _. ok (
                reserve bytes_deref bytes_slice r reserved
                  (insert_as bytes_deref bytes_slice r q buf data' channel size)))
              λ _ g.
                let sizes = WhenOk-ok _ (max_payload q) size f (max_payload-mtu q) in
                let lengths =
                  WhenOk-ok _ (required_bytes q r (length buf)) reserved e
                    (required_bytes-length q r (length buf)) in
                insert_as-joined r q buf data' channel size law holds sizes.0
                  (omega (arith, sizes.1, mtu)) (omega (arith, lengths.0, lengths.1))
                  (not_refused _ packet_size_exceed_mtu _ g)

  -- Where slice of bytes::Bytes is the part of the buffer that it names, the handle, if one is
  -- given, holds the message, and the MTU has 16 bits: whenever insert_payload accepts a message,
  -- of any reliability and length, the payloads of the queued frames together grow by exactly the
  -- bytes of the message.
  pub insert_payload-joined :
      (q q' : SendQ H) (r : Reliability) (buf : List ℕ) (channel : ℕ) (data' : Option H)
      → IsSlice bytes_deref bytes_slice
      → HoldsBytes bytes_deref bytes_slice buf data'
      → q.mtu < 2 ^ 16
      → insert_payload bytes_deref bytes_slice q r buf channel data' ≡ ok q'
      → joined bytes_deref bytes_slice q'.packets ≡ joined bytes_deref bytes_slice q.packets ++ buf
  insert_payload-joined q q' r buf channel data' law holds mtu e =
      WhenOk-ok _ (insert_payload bytes_deref bytes_slice q r buf channel data') q' e
        (queued_whole q r buf channel data' law holds mtu)

  -- Parts with the same bytes carry the same together.
  payloads_same :
      (part part' : ℕ → FrameSetPacket H) (count index : ℕ)
      → ((i : ℕ) → deref bytes_deref (part i).payload ≡ deref bytes_deref (part' i).payload)
      → payloads bytes_deref part count index ≡ payloads bytes_deref part' count index
  unfolding payloads
  payloads_same part part' zero index h = refl
  payloads_same part part' (suc count) index h =
      rw (h index, payloads_same part part' count (suc index) h) refl

  -- Where slice of bytes::Bytes is the part of the buffer that it names, and the handle, if one is
  -- given, holds the message: a full fragment whose parts carry the payloads that the sender gave
  -- the fragments of a message of fewer than 2^32 bytes, in parts of fewer than 2^16, with as many
  -- parts and the same flags, is merged to a reliable ordered frame of the whole message.
  pub merge-fragment :
      (q : SendQ H) (buf : List ℕ) (data' : Option H) (channel size place : ℕ)
      (f : Fragment bytes_deref) (part : ℕ → FrameSetPacket H)
      → IsSlice bytes_deref bytes_slice
      → HoldsBytes bytes_deref bytes_slice buf data'
      → 0 < size
      → size < 2 ^ 16
      → length buf < 2 ^ 32
      → full bytes_deref f ≡ true
      → f.compound_size ≡ div_ceil (length buf) size
      → f.flags
        ≡ (fragment bytes_deref bytes_slice q buf data' channel size
            (div_ceil (length buf) size)
            place
            0).flags
      → AreThere bytes_deref f.frames part f.compound_size 0
      → ((i : ℕ)
          → deref bytes_deref (part i).payload
            ≡ deref bytes_deref
                (fragment bytes_deref bytes_slice q buf data' channel size
                  (div_ceil (length buf) size)
                  place
                  i).payload)
      → merge bytes_deref f
        ≡ ok (record (new bytes_deref reliable_ordered buf) {
          ordered_frame_index = f.ordered_frame_index;
          order_channel = f.order_channel;
          sequence_number = (part (f.compound_size - 1)).sequence_number;
        })
  merge-fragment q buf data' channel size place f part law holds positive small bound is_full count
        flags there same_bytes =
      let sent =
        fragment bytes_deref bytes_slice q buf data' channel size (div_ceil (length buf) size)
          place in
      let whole : payloads bytes_deref part f.compound_size 0 ≡ buf =
        payloads_same part sent f.compound_size 0 same_bytes
        ∙ ap (λ n. payloads bytes_deref sent n 0) count
        ∙ fragment-payloads_all bytes_deref bytes_slice q buf data' channel size place law holds
            positive small bound in
      let kind : reliability_of f.flags ≡ ok reliable_ordered =
        ap reliability_of flags ∙ unfold fragment from_payload reliability_of in refl in
      merge-payloads bytes_deref f part reliable_ordered is_full there
        (omega (arith, ap length whole)) kind
      ∙ ap
          (λ bs. ok (record (new bytes_deref reliable_ordered bs) {
            ordered_frame_index = f.ordered_frame_index;
            order_channel = f.order_channel;
            sequence_number = (part (f.compound_size - 1)).sequence_number;
          }))
          whole
