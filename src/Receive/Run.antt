-- ===== src/Receive/Run.antt =====
-- The frames that wait in the reordering table of `RecvQ` of src/arq.rs for consecutive indices.
use rust_raknet.Prelude.{
  ℕ, zero, suc, ◌+◌, ◌≡◌, refl, sym, ap, ◌∙◌, inl, inr, Bool, false, ◌||◌, none, some, List, [],
  ◌∷◌, if◌then◌else◌, arith, Bool-cases,
}
use rust_raknet.Prelude.Maps.{get, without}
use rust_raknet.Prelude.MapLaws.{get-without}
use rust_raknet.Sequence.{next}
use rust_raknet.Sequence.Order.{steps}
use rust_raknet.Frame.Packet.{FrameSetPacket}
use rust_raknet.Receive.ChannelLaws.{same_key-IsEquality}
use rust_raknet.Receive.Queue.{same_key, payload_length}

pub steps_next : (n index : ℕ) → steps n (next index) ≡ next (steps n index)
steps_next zero index = refl
steps_next (suc n) index = ap next (steps_next n index)

-- The keys of `count` indices of a channel, from `index` on.
abbrev pub among : ℕ → ℕ → ℕ → ℕ × ℕ → Bool
among channel index zero key = false
among channel index (suc count) key =
    let rest = among channel (next index) count key in same_key (channel, index) key || rest

module _ {H : Type 0} (bytes_deref : H → List ℕ) where
  abbrev pub Table : Type 0
  Table = List ((ℕ × ℕ) × FrameSetPacket H)

  abbrev pub total_length : List (FrameSetPacket H) → ℕ
  total_length [] = 0
  total_length (frame ∷ frames) = payload_length bytes_deref frame + total_length frames

  -- `frames` wait in the table for consecutive indices of a channel, the first for `index`.
  abbrev pub Consecutive : Table → ℕ → ℕ → List (FrameSetPacket H) → Type 0
  Consecutive table channel index [] = Unit
  Consecutive table channel index (frame ∷ frames) =
      (get same_key table (channel, index) ≡ some frame)
      × Consecutive table channel (next index) frames

  found_without :
      (table : Table) (key k : ℕ × ℕ) (frame : FrameSetPacket H)
      → get same_key (without same_key table key) k ≡ some frame
      → get same_key table k ≡ some frame
  found_without table key k frame h =
      let law = get-without same_key same_key-IsEquality table key k in
      elim (Bool-cases (same_key key k)) [
        | inl e ↦
            let gone : get same_key (without same_key table key) k ≡ none = law ∙ rw e refl in
            absurd (ground arith)
        | inr e ↦ sym (law ∙ rw e refl) ∙ h
      ]

  pub Consecutive-without :
      (table : Table) (key : ℕ × ℕ) (channel index : ℕ) (frames : List (FrameSetPacket H))
      → Consecutive (without same_key table key) channel index frames
      → Consecutive table channel index frames
  Consecutive-without table key channel index [] c = c
  Consecutive-without table key channel index (frame ∷ frames) (here, c) = (
    found_without table key (channel, index) frame here,
    Consecutive-without table key channel (next index) frames c,
  )

  -- The run with one frame more at its front.
  pub get-longer :
      (table : Table) (channel index count : ℕ) (key : ℕ × ℕ)
      → (if among channel (next index) count key
          then none
          else get same_key (without same_key table (channel, index)) key)
        ≡ (if among channel index (suc count) key then none else get same_key table key)
  get-longer table channel index count key =
      let law = get-without same_key same_key-IsEquality table (channel, index) key in
      elim (Bool-cases (among channel (next index) count key)) [
        | inl run ↦ rw run (elim (Bool-cases (same_key (channel, index) key)) [
          | inl first ↦ rw first refl
          | inr later ↦ rw later refl
        ])
        | inr beyond ↦ rw beyond (
            law ∙ elim (Bool-cases (same_key (channel, index) key)) [
              | inl first ↦ rw first refl
              | inr later ↦ rw later refl
            ])
      ]
