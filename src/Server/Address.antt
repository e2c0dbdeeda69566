-- ===== src/Server/Address.antt =====
-- Equality of `std::net::SocketAddr`, the key of the maps of src/server.rs.
use rust_raknet.Prelude.{ℕ, ◌≡◌, refl, Bool, true, false, ◌&&◌, List, [], ◌∷◌, ◌==◌, arith}
use rust_raknet.Prelude.MapLaws.{IsEquality}
use rust_raknet.Datatype.Address.{SocketAddr, v4, v6}

unfoldable pub same_octets : List ℕ → List ℕ → Bool
same_octets [] [] = true
same_octets [] (b ∷ ys) = false
same_octets (a ∷ xs) [] = false
same_octets (a ∷ xs) (b ∷ ys) = a == b && same_octets xs ys

unfoldable pub same_address : SocketAddr → SocketAddr → Bool
unfolding same_octets
same_address (v4 octets port) (v4 octets' port') = same_octets octets octets' && port == port'
same_address (v6 octets port flow scope) (v6 octets' port' flow' scope') =
    same_octets octets octets' && port == port' && flow == flow' && scope == scope'
same_address (v4 octets port) (v6 octets' port' flow scope) = false
same_address (v6 octets port flow scope) (v4 octets' port') = false

same_octets_refl : (xs : List ℕ) → same_octets xs xs ≡ true
unfolding same_octets
same_octets_refl [] = refl
same_octets_refl (a ∷ xs) = ground (arith, same_octets_refl xs)

same_octets_sound : (xs ys : List ℕ) → same_octets xs ys ≡ true → xs ≡ ys
unfolding same_octets
same_octets_sound [] [] h = refl
same_octets_sound [] (b ∷ ys) h = ground arith
same_octets_sound (a ∷ xs) [] h = ground arith
same_octets_sound (a ∷ xs) (b ∷ ys) h = let rest = same_octets_sound xs ys in ground (arith, rest)

same_address_refl : (a : SocketAddr) → same_address a a ≡ true
unfolding same_address
same_address_refl (v4 octets port) = ground (arith, same_octets_refl octets)
same_address_refl (v6 octets port flow scope) = ground (arith, same_octets_refl octets)

same_address_sound : (a b : SocketAddr) → same_address a b ≡ true → a ≡ b
unfolding same_address
same_address_sound (v4 octets port) (v4 octets' port') h =
    let same = same_octets_sound octets octets' in ground (arith, same)
same_address_sound (v6 octets port flow scope) (v6 octets' port' flow' scope') h =
    let same = same_octets_sound octets octets' in ground (arith, same)
same_address_sound (v4 octets port) (v6 octets' port' flow scope) h = ground arith
same_address_sound (v6 octets port flow scope) (v4 octets' port') h = ground arith

pub same_address-IsEquality : IsEquality same_address
same_address-IsEquality = record { reflexive = same_address_refl; sound = same_address_sound }
