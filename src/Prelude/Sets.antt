-- ===== src/Prelude/Sets.antt =====
-- `std::collections::HashSet<u32>` as a list of its elements.
use Prim.Native.Nat.{ℕ, ◌≤◌, ◌<◌}
use mathlib.Core.Path.{◌≡◌}
use mathlib.Core.Bool.{Bool, true, false, ◌||◌}
use mathlib.Core.List.{List, [], ◌∷◌}
use native.Mathlib.Omega.{arith}
use rust_raknet.Prelude.Tests.{◌==◌, if◌then◌else◌}
use rust_raknet.Prelude.Lists.{length}

unfoldable pub contains : List ℕ → ℕ → Bool
contains [] a = false
contains (x ∷ xs) a = x == a || contains xs a

-- `HashSet::insert`: whether the value is new, and the set with it.
unfoldable pub insert : List ℕ → ℕ → Bool × List ℕ
unfolding contains
insert xs a = if contains xs a then (false, xs) else (true, a ∷ xs)

unfoldable pub remove : List ℕ → ℕ → List ℕ
remove [] a = []
remove (x ∷ xs) a = if x == a then remove xs a else x ∷ remove xs a

pub contains-remove :
    (xs : List ℕ) (a b : ℕ) → contains (remove xs a) b ≡ (if a == b then false else contains xs b)
unfolding contains remove
contains-remove [] a b = ground arith
contains-remove (x ∷ xs) a b = ground (arith, contains-remove xs a b)

length-remove-le : (xs : List ℕ) (a : ℕ) → length (remove xs a) ≤ length xs
unfolding remove
length-remove-le [] a = omega arith
length-remove-le (x ∷ xs) a = ground (arith, length-remove-le xs a)

pub length-remove-lt :
    (xs : List ℕ) (a : ℕ) → contains xs a ≡ true → length (remove xs a) < length xs
unfolding contains remove
length-remove-lt [] a h = ground arith
length-remove-lt (x ∷ xs) a h = ground (arith, length-remove-le xs a, length-remove-lt xs a)
