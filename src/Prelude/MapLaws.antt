-- ===== src/Prelude/MapLaws.antt =====
-- What a lookup gives in a map after an entry is put or removed.
use mathlib.Core.Bool.{Bool, true, false}
use mathlib.Core.Option.{none, some}
use mathlib.Core.List.{List, [], ◌∷◌}
use mathlib.Core.Logic.{inl, inr}
use mathlib.Core.Path.{◌≡◌, refl, sym, ap, ◌∙◌}
use rust_raknet.Prelude.Tests.{if◌then◌else◌, Bool-cases}
use rust_raknet.Prelude.Maps.{get, put, without}

-- A test decides equality of keys.
pub record IsEquality {K : Type 0} (same : K → K → Bool) : Type 0 where
  pub reflexive : (a : K) → same a a ≡ true
  pub sound : (a b : K) → same a b ≡ true → a ≡ b

module _ {ℓ} {K : Type 0} {V : Type ℓ} (same : K → K → Bool) (test : IsEquality same) where
  pub get-without :
      (entries : List (K × V)) (k j : K)
      → get same (without same entries k) j ≡ (if same k j then none else get same entries j)
  get-without [] k j = elim (Bool-cases (same k j)) [ inl e ↦ rw e refl | inr e ↦ rw e refl ]
  get-without ((i, v) ∷ entries) k j =
      let rest = get-without entries k j in
      elim (Bool-cases (same i k)) [
        | inl e ↦
            let f : same i j ≡ same k j = ap (λ x. same x j) (test.sound i k e) in
            elim (Bool-cases (same k j)) [
              | inl g ↦ rw (e, rest, g) refl
              | inr g ↦ rw (e, rest, f, g) refl
            ]
        | inr e ↦ elim (Bool-cases (same k j)) [
          | inl g ↦
              let f : same i j ≡ false = sym (ap (λ x. same i x) (test.sound k j g)) ∙ e in
              rw (e, f, rest, g) refl
          | inr g ↦ rw (e, rest, g) refl
        ]
      ]

  pub get-put :
      (entries : List (K × V)) (k j : K) (v : V)
      → get same (put same entries k v) j ≡ (if same k j then some v else get same entries j)
  get-put entries k j v = elim (Bool-cases (same k j)) [
    | inl e ↦ rw e refl
    | inr e ↦ rw e (get-without entries k j ∙ rw e refl)
  ]
