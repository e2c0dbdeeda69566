-- ===== src/Prelude/Chunks.antt =====
-- A list in chunks of one size: how many there are, and what they hold together.
use Prim.Native.Nat.{ℕ, zero, suc, ◌+◌, ◌-◌, ◌*◌, ◌/◌, ◌≤◌, ◌<◌}
use mathlib.Core.Path.{◌≡◌, refl, sym, ap, ◌∙◌}
use mathlib.Core.List.{List, [], ◌∷◌}
use native.Mathlib.Omega.{arith}
use rust_raknet.Prelude.Lists.{length, take, drop}

module _ {ℓ} {A : Type ℓ} where
  pub drop_all : (n : ℕ) (xs : List A) → length xs ≤ n → drop n xs ≡ []
  drop_all zero [] h = refl
  drop_all zero (x ∷ xs) h = absurd (omega arith)
  drop_all (suc n) [] h = refl
  drop_all (suc n) (x ∷ xs) h = drop_all n xs (omega arith)

  drop_empty : (n : ℕ) → drop {A = A} n [] ≡ []
  drop_empty zero = refl
  drop_empty (suc n) = refl

  pub drop-drop : (n m : ℕ) (xs : List A) → drop m (drop n xs) ≡ drop (n + m) xs
  drop-drop zero m xs = ap (λ k. drop k xs) (omega arith)
  drop-drop (suc n) m [] = drop_empty m ∙ sym (drop_empty (suc n + m))
  drop-drop (suc n) m (x ∷ xs) =
      let e : suc (n + m) ≡ suc n + m = omega arith in
      drop-drop n m xs ∙ ap (λ k. drop k (x ∷ xs)) e

  pub take_all : (n : ℕ) (xs : List A) → length xs ≤ n → take n xs ≡ xs
  take_all zero [] h = refl
  take_all zero (x ∷ xs) h = absurd (omega arith)
  take_all (suc n) [] h = refl
  take_all (suc n) (x ∷ xs) h = ap (◌∷◌ x) (take_all n xs (omega arith))

  -- What is taken is as long as it is.
  pub take_taken : (n : ℕ) (xs : List A) → take (length (take n xs)) xs ≡ take n xs
  take_taken zero xs = refl
  take_taken (suc n) [] = refl
  take_taken (suc n) (x ∷ xs) = ap (◌∷◌ x) (take_taken n xs)

  pub length-take_le : (n : ℕ) (xs : List A) → length (take n xs) ≤ n
  length-take_le zero xs = omega arith
  length-take_le (suc n) [] = omega arith
  length-take_le (suc n) (x ∷ xs) = omega (arith, length-take_le n xs)

  pub length-take_within : (n : ℕ) (xs : List A) → length (take n xs) ≤ length xs
  length-take_within zero xs = omega arith
  length-take_within (suc n) [] = omega arith
  length-take_within (suc n) (x ∷ xs) = omega (arith, length-take_within n xs)

-- The count of chunks covers the length, and the last one is not empty.
pub chunks_cover : (len size : ℕ) → 0 < size → len ≤ (len + size - 1) / size * size
chunks_cover len size h = omega arith

pub chunks_last : (len size : ℕ) → 0 < size → (len + size - 1) / size * size < len + size
chunks_last len size h = omega arith

pub suc_times : (n size : ℕ) → suc n * size ≡ n * size + size
suc_times n size = omega arith
