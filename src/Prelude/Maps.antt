-- ===== src/Prelude/Maps.antt =====
-- `HashMap` as a list of entries, of which the first for a key counts.
use mathlib.Core.Bool.{Bool, true, false}
use mathlib.Core.Option.{Option, none, some}
use mathlib.Core.List.{List, [], ◌∷◌}
use rust_raknet.Prelude.Tests.{if◌then◌else◌}

module _ {ℓ} {K : Type 0} {V : Type ℓ} (same : K → K → Bool) where
  abbrev pub get : List (K × V) → K → Option V
  get [] k = none
  get ((j, v) ∷ entries) k = if same j k then some v else get entries k

  abbrev pub without : List (K × V) → K → List (K × V)
  without [] k = []
  without ((j, v) ∷ entries) k =
      let rest = without entries k in if same j k then rest else (j, v) ∷ rest

  abbrev pub put : List (K × V) → K → V → List (K × V)
  put entries k v = (k, v) ∷ without entries k

abbrev pub is_some {ℓ} : {A : Type ℓ} → Option A → Bool
is_some none = false
is_some (some a) = true
