-- ===== src/Receive/FragmentTotals.antt =====
-- The bytes that a `Fragment` of src/fragment.rs counts.
use rust_raknet.Prelude.{
  ℕ, ◌+◌, ◌≡◌, refl, ◌⊎◌, inl, inr, Option, none, some, List, [], ◌∷◌, arith, Bool-cases,
}
use rust_raknet.Prelude.Maps.{get, is_some}
use rust_raknet.Prelude.MapLaws.{IsEquality}
use rust_raknet.Prelude.MapTotals.{measure_at, AreEntries, AreEntries-get}
use rust_raknet.Error.{ok, err, packet_parse_error}
use rust_raknet.Frame.Packet.{FrameSetPacket}
use rust_raknet.Receive.Fragment.{
  same, Fragment, FragmentQ, fragment_of, cost, entry, insert, full, differs,
}

pub same-IsEquality : IsEquality same
same-IsEquality = record { reflexive = λ a. ground arith; sound = λ a b h. ground arith }

module _ {H : Type 0} (bytes_deref : H → List ℕ) where
  -- What the parts of a compound cost.
  abbrev pub parts_cost : List (ℕ × FrameSetPacket H) → ℕ
  parts_cost [] = 0
  parts_cost ((index, frame) ∷ frames) = cost bytes_deref frame + parts_cost frames

  -- The bytes that a compound counts.
  abbrev pub counted : Fragment bytes_deref → ℕ
  counted f = f.bytes

  -- It counts what its parts cost.
  abbrev pub IsCounted : Fragment bytes_deref → Type 0
  IsCounted f = f.bytes ≡ parts_cost f.frames

  -- What a frame adds to a compound is what the compound counts more, and its parts cost more.
  pub insert-counted :
      (f : Fragment bytes_deref) (frame : FrameSetPacket H) (now : ℕ)
      → f.bytes ≡ parts_cost f.frames
      → let (added, g) = insert bytes_deref f frame now in
        (g.bytes ≡ parts_cost g.frames)
        × (((n : ℕ) × (added ≡ ok n)
              × (g.bytes ≡ f.bytes + n)
              × ((n ≡ 0) ⊎ (n ≡ cost bytes_deref frame)))
            ⊎ ((added ≡ err packet_parse_error) × (g.bytes ≡ f.bytes)))
  unfolding insert
  insert-counted f frame now h = elim (Bool-cases (full bytes_deref f)) [
    | inl e ↦ rw e (h, inl (0, refl, omega arith, inl refl))
    | inr e ↦ elim (Bool-cases (differs bytes_deref f frame)) [
      | inl d ↦ rw (e, d) (h, inr (refl, refl))
      | inr d ↦ elim (Bool-cases (is_some (get same f.frames frame.fragment_index))) [
        | inl i ↦ rw (e, d, i) (h, inl (0, refl, omega arith, inl refl))
        | inr i ↦ rw (e, d, i) (omega arith, inl (cost bytes_deref frame, refl, refl, inr refl))
      ]
    ]
  ]

  abbrev entry_or : Option (Fragment bytes_deref) → FrameSetPacket H → ℕ → Fragment bytes_deref
  entry_or o frame now = elim o [ some f ↦ f | none ↦ fragment_of bytes_deref frame now ]

  entry_or-counted :
      (o : Option (Fragment bytes_deref)) (frame : FrameSetPacket H) (now : ℕ)
      → ((f : Fragment bytes_deref) → o ≡ some f → f.bytes ≡ parts_cost f.frames)
      → ((entry_or o frame now).bytes ≡ measure_at same same-IsEquality counted o)
        × ((entry_or o frame now).bytes ≡ parts_cost (entry_or o frame now).frames)
  unfolding fragment_of
  entry_or-counted none frame now h = (refl, refl)
  entry_or-counted (some f) frame now h = (refl, h f refl)

  -- The entry that a frame is put in, a new one too, counts what its parts cost.
  pub entry-counted :
      (q : FragmentQ bytes_deref) (frame : FrameSetPacket H) (now : ℕ)
      → AreEntries same same-IsEquality IsCounted q.fragments
      → ((entry bytes_deref q frame now).bytes
          ≡ measure_at same same-IsEquality counted (get same q.fragments frame.compound_id))
        × ((entry bytes_deref q frame now).bytes
            ≡ parts_cost (entry bytes_deref q frame now).frames)
  unfolding entry
  entry-counted q frame now c =
      entry_or-counted (get same q.fragments frame.compound_id) frame now
        λ f. AreEntries-get same same-IsEquality IsCounted q.fragments frame.compound_id f c
