-- ===== src/Receive/MergeLaws.antt =====
-- What a full fragment is merged to.
use rust_raknet.Prelude.{
  ℕ, zero, suc, ◌+◌, ◌-◌, ◌^◌, ◌≤◌, ◌<◌, ◌≡◌, refl, ap, true, false, some, List, [], ◌++◌, length,
  ltb, ◌==◌, arith, length-append,
}
use rust_raknet.Prelude.Maps.{get}
use rust_raknet.Error.{ok}
use rust_raknet.Frame.Reliability.{Reliability, reliability_of}
use rust_raknet.Frame.Packet.{FrameSetPacket, deref, new}
use rust_raknet.Receive.Fragment.{same, Fragment, full, capacity, gather, merge}

module _ {H : Type 0} (bytes_deref : H → List ℕ) where
  -- The payloads of `count` parts from `index` on.
  unfoldable pub payloads : (ℕ → FrameSetPacket H) → ℕ → ℕ → List ℕ
  payloads part zero index = []
  payloads part (suc count) index =
      deref bytes_deref (part index).payload ++ payloads part count (suc index)

  -- The parts from `index` on are there.
  abbrev pub AreThere : List (ℕ × FrameSetPacket H) → (ℕ → FrameSetPacket H) → ℕ → ℕ → Type 0
  AreThere frames part count index =
      (i : ℕ) → index ≤ i → i < index + count → get same frames i ≡ some (part i)

  gather-payloads :
      (frames : List (ℕ × FrameSetPacket H)) (part : ℕ → FrameSetPacket H) (count index : ℕ)
      → AreThere frames part count index
      → gather bytes_deref frames count index ≡ ok (payloads part count index)
  unfolding gather payloads
  gather-payloads frames part zero index h = refl
  gather-payloads frames part (suc count) index h =
      rw
        (
          h index (omega arith) (omega arith),
          gather-payloads frames part count (suc index)
              (λ i lo hi. h i (omega arith) (omega arith)),
        )
        refl

  capacity-payloads :
      (frames : List (ℕ × FrameSetPacket H)) (part : ℕ → FrameSetPacket H) (count index total : ℕ)
      → AreThere frames part count index
      → total + length (payloads part count index) < 2 ^ 64
      → capacity bytes_deref frames count index total
        ≡ some (total + length (payloads part count index))
  unfolding capacity payloads
  capacity-payloads frames part zero index total h small = ground arith
  capacity-payloads frames part (suc count) index total h small =
      let here = deref bytes_deref (part index).payload in
      let rest = payloads part count (suc index) in
      let fits : ltb (total + length here) (2 ^ 64) ≡ true =
        ground (arith, small, length-append here rest) in
      rw
        (
          h index (omega arith) (omega arith),
          fits,
          capacity-payloads frames part count (suc index) (total + length here)
              (λ i lo hi. h i (omega arith) (omega arith))
              (omega (arith, small, length-append here rest)),
        )
        (ap some (omega (arith, length-append here rest)))

  full-nonzero :
      (f : Fragment bytes_deref)
      → full bytes_deref f ≡ true
      → ((f.compound_size == 0) ≡ false) × (f.compound_size - 1 < 0 + f.compound_size)
  unfolding full
  full-nonzero f h = ground arith

  -- A full fragment of valid flags whose parts are all there, of fewer than 2^64 bytes in total,
  -- is merged to a frame that holds the payloads of the parts in the order of their indices, with
  -- the sequence number of the last part and the ordered index and channel of the fragment.
  pub merge-payloads :
      (f : Fragment bytes_deref) (part : ℕ → FrameSetPacket H) (r : Reliability)
      → full bytes_deref f ≡ true
      → AreThere f.frames part f.compound_size 0
      → length (payloads part f.compound_size 0) < 2 ^ 64
      → reliability_of f.flags ≡ ok r
      → merge bytes_deref f
        ≡ ok (record (new bytes_deref r (payloads part f.compound_size 0)) {
          ordered_frame_index = f.ordered_frame_index;
          order_channel = f.order_channel;
          sequence_number = (part (f.compound_size - 1)).sequence_number;
        })
  unfolding merge
  merge-payloads f part r is_full there small valid =
      rw
        (
          is_full,
          (full-nonzero f is_full).0,
          there (f.compound_size - 1) (omega arith) (full-nonzero f is_full).1,
          capacity-payloads f.frames part f.compound_size 0 0 there (omega (arith, small)),
          gather-payloads f.frames part f.compound_size 0 there,
          valid,
        )
        refl
