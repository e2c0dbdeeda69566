-- ===== src/Datatype/AddressLaws.antt =====
-- Socket addresses on the wire: what `write_address` writes, and that `read_address` reads it back.
use rust_raknet.Prelude.{
  ℕ, ◌-◌, ◌^◌, ◌≤◌, ◌<◌, ◌≡◌, refl, ap, subst, List, [], ◌∷◌, ◌++◌, map, length, All, arith,
  length-append,
}
use rust_raknet.Prelude.Int.{pos, to_unsigned}
use rust_raknet.Bytes.{BufMut, BufMutLaws, Buf, BufLaws}
use rust_raknet.Bytes.Words.{IsByte, to_be, to_le, length-to_be}
use rust_raknet.Datatype.Address.{
  SocketAddr, v4, v6, write_octets, write_address, read_v4, read_v6, read_address,
}
use rust_raknet.Datatype.Reader.{read}
use rust_raknet.Datatype.Reads.{Reads, Reads-bind, Reads-last, Reads-pure}
use rust_raknet.Datatype.ReadLaws.{
  Reads-need, read-Reads, read_u8-Reads, read_u16-Reads, skip-Reads,
}
use rust_raknet.Datatype.Writes.{
  Writes, Writes-bind, Writes-pure, write-Writes, write_u8-Writes, write_u16-Writes,
  write_i16_le-Writes, write_i32-Writes,
}

-- The values of the type: 4 or 16 octets, a 16-bit port, 32-bit `flowinfo` and `scope_id`.
abbrev pub IsSocketAddr : SocketAddr → Type 0
IsSocketAddr (v4 octets port) = (length octets ≡ 4) × All IsByte octets × (port < 2 ^ 16)
IsSocketAddr (v6 octets port flowinfo scope_id) =
    (length octets ≡ 16)
    × All IsByte octets
    × (port < 2 ^ 16)
    × (flowinfo < 2 ^ 32)
    × (scope_id < 2 ^ 32)

-- The wire format: the octets of version 4 complemented, version 6 as a `sockaddr_in6` with
-- AF_INET6 = 23 and no flow label or scope.
unfoldable pub address_bytes : SocketAddr → List ℕ
address_bytes (v4 octets port) = (4 ∷ []) ++ (map (λ o. 0xff - o) octets ++ to_be 2 port)
address_bytes (v6 octets port flowinfo scope_id) =
    (6 ∷ [])
    ++ ((23 ∷ 0 ∷ [])
        ++ (to_be 2 port ++ ((0 ∷ 0 ∷ 0 ∷ 0 ∷ []) ++ (octets ++ (0 ∷ 0 ∷ 0 ∷ 0 ∷ [])))))

-- An address as it arrives: the wire format carries no `flowinfo` and no `scope_id`.
abbrev pub on_wire : SocketAddr → SocketAddr
on_wire (v4 octets port) = v4 octets port
on_wire (v6 octets port flowinfo scope_id) = v6 octets port 0 0

length-complements : (octets : List ℕ) → length (map (λ o. 0xff - o) octets) ≡ length octets
length-complements [] = refl
length-complements (o ∷ os) = omega (arith, length-complements os)

pub length-address_bytes :
    (a : SocketAddr)
    → IsSocketAddr a
    → (7 ≤ length (address_bytes a)) × (length (address_bytes a) ≤ 29)
unfolding address_bytes
length-address_bytes (v4 octets port) h = omega (
  arith,
  length-append (map (λ o. 0xff - o) octets) (to_be 2 port),
  length-complements octets,
  length-to_be 2 port,
)
length-address_bytes (v6 octets port flowinfo scope_id) h = omega (
  arith,
  length-append (to_be 2 port) ((0 ∷ 0 ∷ 0 ∷ 0 ∷ []) ++ (octets ++ (0 ∷ 0 ∷ 0 ∷ 0 ∷ []))),
  length-append octets (0 ∷ 0 ∷ 0 ∷ 0 ∷ []),
  length-to_be 2 port,
)

module _ {B : Type 0} {buf : BufMut B} {written : B → List ℕ} (laws : BufMutLaws buf written) where
  write_octets-Writes :
      (octets : List ℕ)
      → Writes buf written (write_octets buf octets) (map (λ o. 0xff - o) octets) tt
  unfolding write_octets
  write_octets-Writes [] = Writes-pure tt
  write_octets-Writes (o ∷ os) =
      Writes-bind _ (write_u8-Writes laws (0xff - o) (omega arith)) (write_octets-Writes os)

  pub write_address-Writes :
      (a : SocketAddr) → Writes buf written (write_address buf a) (address_bytes a) tt
  unfolding write_address address_bytes to_le to_be to_unsigned
  write_address-Writes (v4 octets port) =
      Writes-bind _ (write_u8-Writes laws 4 (omega arith))
        (Writes-bind _ (write_octets-Writes octets) (write_u16-Writes laws port))
  write_address-Writes (v6 octets port flowinfo scope_id) =
      Writes-bind _ (write_u8-Writes laws 6 (omega arith)) (
        Writes-bind _ (write_i16_le-Writes laws (pos 23)) (
          Writes-bind _ (write_u16-Writes laws port) (
            Writes-bind _ (write_i32-Writes laws (pos 0))
              (Writes-bind _ (write-Writes laws octets) (write_i32-Writes laws (pos 0))))))

complement :
    (a b c d : ℕ)
    → All IsByte (a ∷ b ∷ c ∷ d ∷ [])
    → (0xff - (0xff - a)) ∷ (0xff - (0xff - b)) ∷ (0xff - (0xff - c)) ∷ (0xff - (0xff - d)) ∷ []
      ≡ a ∷ b ∷ c ∷ d ∷ []
complement a b c d h = ground arith

module _ {buf : Buf} (laws : BufLaws buf) where
  read_v4-Reads :
      (octets : List ℕ) (port : ℕ)
      → IsSocketAddr (v4 octets port)
      → Reads (read_v4 buf) (map (λ o. 0xff - o) octets ++ to_be 2 port) (v4 octets port)
  unfolding read_v4
  read_v4-Reads (a ∷ b ∷ c ∷ d ∷ []) port h = Reads-need laws (omega (arith, length-to_be 2 port)) (
      Reads-bind _ (read_u8-Reads laws (0xff - a)) (
        Reads-bind _ (read_u8-Reads laws (0xff - b)) (
          Reads-bind _ (read_u8-Reads laws (0xff - c)) (
            Reads-bind _ (read_u8-Reads laws (0xff - d)) (
              Reads-last _ (read_u16-Reads laws port (omega arith)) (
                subst (Reads _ []) (ap (λ l. v4 l port) (complement a b c d (omega arith)))
                  (Reads-pure _)))))))
  read_v4-Reads octets port h = absurd (omega arith)

  read_v6-Reads :
      (octets : List ℕ) (port flowinfo scope_id : ℕ)
      → IsSocketAddr (v6 octets port flowinfo scope_id)
      → Reads
          (read_v6 buf 2)
          ((23 ∷ 0 ∷ [])
            ++ (to_be 2 port ++ ((0 ∷ 0 ∷ 0 ∷ 0 ∷ []) ++ (octets ++ (0 ∷ 0 ∷ 0 ∷ 0 ∷ [])))))
          (v6 octets port 0 0)
  unfolding read_v6
  read_v6-Reads octets port flowinfo scope_id h = Reads-bind _ (skip-Reads laws (23 ∷ 0 ∷ [])) (
      Reads-bind _ (read_u16-Reads laws port (omega arith)) (
        Reads-bind _ (skip-Reads laws (0 ∷ 0 ∷ 0 ∷ 0 ∷ [])) (
          Reads-bind _ (subst (λ n. Reads (read n) octets octets) h.0 (read-Reads octets))
            (Reads-last _ (skip-Reads laws (0 ∷ 0 ∷ 0 ∷ 0 ∷ [])) (Reads-pure _)))))

  pub read_address-Reads :
      (a : SocketAddr) → IsSocketAddr a → Reads (read_address buf) (address_bytes a) (on_wire a)
  unfolding read_address address_bytes
  read_address-Reads (v4 octets port) h =
      Reads-bind _ (read_u8-Reads laws 4) (read_v4-Reads octets port h)
  read_address-Reads (v6 octets port flowinfo scope_id) h =
      Reads-bind _ (read_u8-Reads laws 6) (read_v6-Reads octets port flowinfo scope_id h)
