-- ===== src/Prelude/MapTotals.antt =====
-- Maps whose keys have one entry each, and the total of a measure over their entries.
use Prim.Native.Nat.{ℕ, ◌+◌, ◌≤◌, ◌<◌}
use mathlib.Core.Bool.{Bool}
use mathlib.Core.Option.{Option, none, some}
use mathlib.Core.List.{List, [], ◌∷◌}
use mathlib.Core.Logic.{inl, inr}
use mathlib.Core.Path.{◌≡◌, refl, ap, subst, ◌∙◌}
use rust_raknet.Prelude.Tests.{if◌then◌else◌, Bool-cases}
use native.Mathlib.Omega.{arith}
use rust_raknet.Prelude.Lists.{length}
use rust_raknet.Prelude.Maps.{get, put, without}
use rust_raknet.Prelude.MapLaws.{IsEquality, get-without}

module _ {K : Type 0} {V : Type 0} (same : K → K → Bool) where
  pub length-without : (m : List (K × V)) (k : K) → length (without same m k) ≤ length m
  length-without [] k = omega arith
  length-without ((j, v) ∷ m) k = ground (arith, length-without m k)

  pub length-without_found :
      (m : List (K × V)) (k : K) (v : V)
      → get same m k ≡ some v
      → length (without same m k) < length m
  length-without_found [] k v h = ground arith
  length-without_found ((j, w) ∷ m) k v h = elim (Bool-cases (same j k)) [
    | inl e ↦ rw e (omega (arith, length-without m k))
    | inr e ↦ rw e (
        omega (
          arith,
          length-without_found m k v
              (subst (λ b. (if b then some w else get same m k) ≡ some v) e h),
        ))
  ]

module _ {K : Type 0} {V : Type 0} (same : K → K → Bool) (test : IsEquality same) where
  module _ (measure : V → ℕ) where
    abbrev pub total : List (K × V) → ℕ
    total [] = 0
    total ((k, v) ∷ entries) = measure v + total entries

    abbrev pub measure_at : Option V → ℕ
    measure_at none = 0
    measure_at (some v) = measure v

  -- Each key has one entry, and each value is `Good`.
  abbrev pub AreEntries : (V → Type 0) → List (K × V) → Type 0
  AreEntries Good [] = Unit
  AreEntries Good ((k, v) ∷ entries) =
      (get same entries k ≡ none) × Good v × AreEntries Good entries

  module _ (Good : V → Type 0) where
    pub total-without :
        (measure : V → ℕ) (entries : List (K × V)) (k : K)
        → AreEntries Good entries
        → total measure (without same entries k) + measure_at measure (get same entries k)
          ≡ total measure entries
    total-without measure [] k c = refl
    total-without measure ((j, v) ∷ entries) k (new, good, c) =
        let rest = total-without measure entries k c in
        elim (Bool-cases (same j k)) [
          | inl e ↦
              let none_left : measure_at measure (get same entries k) ≡ 0 =
                subst (λ i. measure_at measure (get same entries i) ≡ 0) (test.sound j k e)
                  (ap (measure_at measure) new) in
              rw e (omega (arith, rest, none_left))
          | inr e ↦ rw e (omega (arith, rest))
        ]

    pub AreEntries-without :
        (entries : List (K × V)) (k : K)
        → AreEntries Good entries
        → AreEntries Good (without same entries k)
    AreEntries-without [] k c = c
    AreEntries-without ((j, v) ∷ entries) k (new, good, c) =
        let rest = AreEntries-without entries k c in
        elim (Bool-cases (same j k)) [ inl e ↦ rw e rest | inr e ↦ rw e (no_entry, good, rest) ]
      where
        no_entry : get same (without same entries k) j ≡ none
        no_entry =
            get-without same test entries k j
            ∙ elim (Bool-cases (same k j)) [ inl e ↦ rw e refl | inr e ↦ rw e new ]

    pub AreEntries-get :
        (entries : List (K × V)) (k : K) (v : V)
        → AreEntries Good entries
        → get same entries k ≡ some v
        → Good v
    AreEntries-get [] k v c h = ground arith
    AreEntries-get ((j, w) ∷ entries) k v (new, good, c) h = elim (Bool-cases (same j k)) [
      | inl e ↦
          let found : some w ≡ some v =
            subst (λ b. (if b then some w else get same entries k) ≡ some v) e h in
          let same_value : w ≡ v = cc in subst Good same_value good
      | inr e ↦
          AreEntries-get entries k v c
            (subst (λ b. (if b then some w else get same entries k) ≡ some v) e h)
    ]

    pub AreEntries-put :
        (entries : List (K × V)) (k : K) (v : V)
        → AreEntries Good entries
        → Good v
        → AreEntries Good (put same entries k v)
    AreEntries-put entries k v c good = (
      get-without same test entries k k ∙ rw (test.reflexive k) refl,
      good,
      AreEntries-without entries k c,
    )
