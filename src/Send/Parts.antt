-- ===== src/Send/Parts.antt =====
-- On the payloads of the fragments of a message.
use rust_raknet.Prelude.{
  ℕ, zero, suc, ◌+◌, ◌-◌, ◌*◌, ◌%◌, ◌^◌, ◌≤◌, ◌<◌, ◌≡◌, refl, sym, ap, ◌∙◌, Option, none, some,
  List, length, take, drop, subst, arith, length-drop, take-append_drop,
}
use rust_raknet.Prelude.Chunks.{
  drop_all, drop-drop, take_taken, length-take_le, length-take_within, chunks_cover, chunks_last,
  suc_times,
}
use rust_raknet.Frame.Packet.{deref, from_payload}
use rust_raknet.Receive.MergeLaws.{payloads}
use rust_raknet.Send.Queue.{SendQ, div_ceil}
use rust_raknet.Send.Insert.{part_payload, fragment}

module _ {H : Type 0} (bytes_deref : H → List ℕ) (bytes_slice : H → ℕ → ℕ → H) where
  -- `slice` of the crate `bytes`: the part of the buffer between two places in it.
  abbrev pub IsSlice : Type 0
  IsSlice =
      (handle : H) (start end : ℕ)
      → start ≤ end
      → end ≤ length (bytes_deref handle)
      → bytes_deref (bytes_slice handle start end)
        ≡ take (end - start) (drop start (bytes_deref handle))

  -- The handle, if there is one, holds the bytes that are sent.
  abbrev pub HoldsBytes : List ℕ → Option H → Type 0
  HoldsBytes buf none = Unit {0}
  HoldsBytes buf (some handle) = bytes_deref handle ≡ buf

  part_payload-chunk :
      (buf : List ℕ) (data' : Option H) (start size : ℕ)
      → IsSlice
      → HoldsBytes buf data'
      → size < 2 ^ 16
      → start ≤ length buf
      → length buf < 2 ^ 32
      → deref bytes_deref (
          part_payload bytes_deref bytes_slice buf data' start
            (length (take size (drop start buf))))
        ≡ take size (drop start buf)
  unfolding deref
  part_payload-chunk buf none start size law holds small within bound =
      let len = length (take size (drop start buf)) in
      let same_start : start % 2 ^ 32 ≡ start = omega arith in
      let same_len : len % 2 ^ 16 ≡ len = omega (arith, length-take_le size (drop start buf)) in
      rw (same_start, same_len) (take_taken size (drop start buf))
  part_payload-chunk buf (some handle) start size law holds small within bound =
      let len = length (take size (drop start buf)) in
      law handle start (start + len) (omega arith) (
        subst (λ b. start + len ≤ length b) (sym holds)
          (omega (arith, length-take_within size (drop start buf), length-drop start buf, within)))
      ∙ ap (λ b. take (start + len - start) (drop start b)) holds
      ∙ ap (λ n. take n (drop start buf)) (omega arith)
      ∙ take_taken size (drop start buf)

  fragment-payload :
      (q : SendQ H) (buf : List ℕ) (data' : Option H) (channel size count place index : ℕ)
      → (fragment bytes_deref bytes_slice q buf data' channel size count place index).payload
        ≡ part_payload bytes_deref bytes_slice buf data'
            (index * size)
            (length (take size (drop (index * size) buf)))
  unfolding fragment from_payload
  fragment-payload q buf data' channel size count place index = refl

  -- The parts from `index` on carry what follows the parts before them.
  pub fragment-payloads :
      (q : SendQ H) (buf : List ℕ) (data' : Option H) (channel size total place count index : ℕ)
      → IsSlice
      → HoldsBytes buf data'
      → size < 2 ^ 16
      → length buf < 2 ^ 32
      → length buf ≤ index * size + count * size
      → index * size + count * size < length buf + size
      → payloads bytes_deref
          (fragment bytes_deref bytes_slice q buf data' channel size total place)
          count
          index
        ≡ drop (index * size) buf
  unfolding payloads
  fragment-payloads q buf data' channel size total place zero index law holds small bound lo hi =
      sym (drop_all (index * size) buf (omega (arith, lo)))
  fragment-payloads q buf data' channel size total place (suc count) index law holds small bound lo
        hi =
      let start = index * size in
      let more = suc_times count size in
      let next_start = suc_times index size in
      let rest : payloads bytes_deref
            (fragment bytes_deref bytes_slice q buf data' channel size total place) count
            (suc index)
          ≡ drop (start + size) buf =
        fragment-payloads q buf data' channel size total place count (suc index) law holds small
          bound (omega (arith, more, next_start)) (omega (arith, more, next_start))
        ∙ ap (λ n. drop n buf) next_start in
      let here : deref bytes_deref
            (fragment bytes_deref bytes_slice q buf data' channel size total place index).payload
          ≡ take size (drop start buf) =
        ap (deref bytes_deref) (fragment-payload q buf data' channel size total place index)
        ∙ part_payload-chunk buf data' start size law holds small (omega (arith, more, hi)) bound in
      rw (here, rest, sym (drop-drop start size buf)) (take-append_drop size (drop start buf))

  -- All parts carry all bytes.
  pub fragment-payloads_all :
      (q : SendQ H) (buf : List ℕ) (data' : Option H) (channel size place : ℕ)
      → IsSlice
      → HoldsBytes buf data'
      → 0 < size
      → size < 2 ^ 16
      → length buf < 2 ^ 32
      → payloads bytes_deref
          (fragment bytes_deref bytes_slice q buf data' channel size
            (div_ceil (length buf) size)
            place)
          (div_ceil (length buf) size)
          0
        ≡ buf
  fragment-payloads_all q buf data' channel size place law holds positive small bound =
      let start : 0 * size ≡ 0 = omega arith in
      fragment-payloads q buf data' channel size (div_ceil (length buf) size) place
        (div_ceil (length buf) size) 0 law holds small bound
        (omega (arith, chunks_cover (length buf) size positive))
        (omega (arith, chunks_last (length buf) size positive))
      ∙ ap (λ n. drop n buf) start
