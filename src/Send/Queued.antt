-- ===== src/Send/Queued.antt =====
-- On the payloads of the frames that `insert_payload` queues.
use rust_raknet.Prelude.{
  ℕ, zero, suc, ◌+◌, ◌*◌, ◌%◌, ◌^◌, ◌≤◌, ◌<◌, ◌≡◌, refl, sym, ap, ◌∙◌, inl, inr, Option, none, some,
  List, [], ◌∷◌, ◌++◌, length, ltb, leb, arith, Bool-cases, append-nil, append_assoc,
}
use rust_raknet.Prelude.Chunks.{take_all}
use rust_raknet.Error.{Result, ok, err, ◌>>=◌, refuse, packet_size_exceed_mtu}
use rust_raknet.Frame.Reliability.{Reliability}
use rust_raknet.Frame.Packet.{FramePayload, FrameSetPacket, deref}
use rust_raknet.Receive.MergeLaws.{payloads}
use rust_raknet.Receive.Fragment.{max_fragments}
use rust_raknet.Send.Queue.{
  SendQ, div_ceil, max_payload, required_bytes, max_buffered_bytes, frame_count, frame_budget,
}
use rust_raknet.Send.Insert.{
  copied_payload, owned_payload, push_reliable, fragment, fragment_loop, insert_fragments,
}
use rust_raknet.Send.InsertLaws.{WhenOk, WhenOk-bind}
use rust_raknet.Send.Parts.{IsSlice, HoldsBytes, fragment-payloads_all}

-- The rest of a chain, told that its first step succeeded.
pub WhenOk-bind_eq :
    {A B : Type 0} (P : B → Type 0) (m : Result A) (f : A → Result B)
    → ((a : A) → m ≡ ok a → WhenOk P (f a))
    → WhenOk P (m >>= f)
WhenOk-bind_eq P (ok a) f h = h a refl
WhenOk-bind_eq P (err e) f h = tt

module _ {H : Type 0} where
  -- A payload is not longer than the bytes that it takes in the buffer.
  pub required_bytes-length :
      (q : SendQ H) (r : Reliability) (len : ℕ)
      → WhenOk
          (λ (bytes : ℕ). (len ≤ bytes) × (bytes ≤ max_buffered_bytes))
          (required_bytes q r len)
  unfolding required_bytes
  required_bytes-length q r len =
      let P = λ (bytes : ℕ). (len ≤ bytes) × (bytes ≤ max_buffered_bytes) in
      WhenOk-bind P (max_payload q) _ λ payload.
        let bytes : ℕ = frame_count r len payload * frame_budget + len in
        WhenOk-bind P
          (refuse (ltb max_fragments (frame_count r len payload)) packet_size_exceed_mtu)
          (λ _. refuse (ltb max_buffered_bytes bytes) packet_size_exceed_mtu >>= λ _. ok bytes)
          λ _.
            WhenOk-bind_eq P (refuse (ltb max_buffered_bytes bytes) packet_size_exceed_mtu)
              (λ _. ok bytes)
              λ _ e. elim (Bool-cases (ltb max_buffered_bytes bytes)) [
                | inl f ↦ absurd (ground (arith, e, f))
                | inr f ↦ (omega arith, ground (arith, f))
              ]

  pub max_payload-mtu :
      (q : SendQ H) → WhenOk (λ (size : ℕ). (0 < size) × (size < q.mtu)) (max_payload q)
  unfolding max_payload
  max_payload-mtu q = elim (Bool-cases (leb q.mtu 60)) [
    | inl e ↦ rw e tt
    | inr e ↦ rw e (ground (arith, e), ground (arith, e))
  ]

module _ {H : Type 0} (bytes_deref : H → List ℕ) (bytes_slice : H → ℕ → ℕ → H) where
  -- The payloads of a list of frames, one after another.
  unfoldable pub joined : List (FrameSetPacket H) → List ℕ
  joined [] = []
  joined (frame ∷ frames) = deref bytes_deref frame.payload ++ joined frames

  joined_end :
      (frames : List (FrameSetPacket H)) (frame : FrameSetPacket H)
      → joined (frames ++ frame ∷ []) ≡ joined frames ++ deref bytes_deref frame.payload
  unfolding joined
  joined_end [] frame = append-nil _
  joined_end (other ∷ frames) frame =
      ap (λ bs. deref bytes_deref other.payload ++ bs) (joined_end frames frame)
      ∙ sym (
          append_assoc (deref bytes_deref other.payload) (joined frames)
            (deref bytes_deref frame.payload))

  -- A queue that got one frame more.
  pub pushed_joined :
      (q : SendQ H) (frame : FrameSetPacket H) (payload : FramePayload H) (buf : List ℕ)
      → frame.payload ≡ payload
      → deref bytes_deref payload ≡ buf
      → joined (q.packets ++ frame ∷ []) ≡ joined q.packets ++ buf
  pushed_joined q frame payload buf e f =
      joined_end q.packets frame ∙ ap (λ bs. joined q.packets ++ bs) (ap (deref bytes_deref) e ∙ f)

  fragment_loop-joined :
      (left index : ℕ) (part : ℕ → FrameSetPacket H) (q : SendQ H)
      → joined (fragment_loop bytes_deref bytes_slice left index part q).packets
        ≡ joined q.packets ++ payloads bytes_deref part left index
  unfolding fragment_loop payloads
  fragment_loop-joined zero index part q = sym (append-nil _)
  fragment_loop-joined (suc left) index part q =
      let e : index + 1 ≡ suc index = omega arith in
      let here = deref bytes_deref (part index).payload in
      fragment_loop-joined left (index + 1) part
        (push_reliable bytes_deref bytes_slice q (part index))
      ∙ ap
          (λ i.
            joined (
              q.packets
              ++ record (part index) { reliable_frame_index = q.reliable_frame_index } ∷ [])
            ++ payloads bytes_deref part left i)
          e
      ∙ ap (λ bs. bs ++ payloads bytes_deref part left (suc index))
          (pushed_joined q _ (part index).payload here refl refl)
      ∙ append_assoc (joined q.packets) here (payloads bytes_deref part left (suc index))

  pub owned_payload-bytes :
      (buf : List ℕ) (data' : Option H)
      → HoldsBytes bytes_deref bytes_slice buf data'
      → deref bytes_deref (owned_payload bytes_deref bytes_slice buf data') ≡ buf
  unfolding deref
  owned_payload-bytes buf none holds = refl
  owned_payload-bytes buf (some handle) holds = holds

  pub copied_payload-bytes :
      (buf : List ℕ) (data' : Option H)
      → HoldsBytes bytes_deref bytes_slice buf data'
      → length buf < 2 ^ 16
      → deref bytes_deref (copied_payload bytes_deref bytes_slice buf data') ≡ buf
  unfolding deref
  copied_payload-bytes buf none holds small =
      let whole : length buf % 2 ^ 16 ≡ length buf = omega arith in
      rw whole (take_all (length buf) buf (omega arith))
  copied_payload-bytes buf (some handle) holds small = holds

  pub insert_fragments-joined :
      (q : SendQ H) (buf : List ℕ) (data' : Option H) (channel size : ℕ)
      → IsSlice bytes_deref bytes_slice
      → HoldsBytes bytes_deref bytes_slice buf data'
      → 0 < size
      → size < 2 ^ 16
      → length buf < 2 ^ 32
      → joined (insert_fragments bytes_deref bytes_slice q buf data' channel size).packets
        ≡ joined q.packets ++ buf
  unfolding insert_fragments
  insert_fragments-joined q buf data' channel size law holds positive small bound =
      fragment_loop-joined (div_ceil (length buf) size) 0
        (fragment bytes_deref bytes_slice q buf data' channel size (div_ceil (length buf) size)
          (length q.shared))
        _
      ∙ ap (λ bs. joined q.packets ++ bs)
          (fragment-payloads_all bytes_deref bytes_slice q buf data' channel size (length q.shared)
            law holds positive small bound)
