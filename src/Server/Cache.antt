-- ===== src/Server/Cache.antt =====
-- `SessionDispatchCache` of src/server.rs. A `Vec` of 4096 entries is a table.
use Prim.Native.Nat.{bit_xor}
use rust_raknet.Prelude.{ℕ, ◌*◌, ◌/◌, ◌%◌, ◌^◌, ◌&&◌, Option, none, some, take, drop, if◌then◌else◌}
use rust_raknet.Bytes.Words.{of_be}
use rust_raknet.Datatype.Address.{SocketAddr, v4, v6}
use rust_raknet.Server.Address.{same_address}
use rust_raknet.Server.Links.{Links, is_live, assign}

pub record CachedSession : Type 0 where
  pub address : SocketAddr
  pub link : ℕ

abbrev pub SessionDispatchCache : Type 0
SessionDispatchCache = ℕ → Option CachedSession

abbrev pub limit : ℕ
limit = 4096

abbrev pub empty_cache : SessionDispatchCache
empty_cache = λ i. none

-- The address as a number: for version 6 its halves are combined.
unfoldable pub ip_bits : SocketAddr → ℕ
unfolding of_be
ip_bits (v4 octets port) = of_be octets
ip_bits (v6 octets port flowinfo scope_id) = bit_xor (of_be (drop 8 octets)) (of_be (take 8 octets))

abbrev pub port_of : SocketAddr → ℕ
port_of (v4 octets port) = port
port_of (v6 octets port flowinfo scope_id) = port

abbrev pub shift_mix : ℕ → ℕ
shift_mix mixed = bit_xor mixed (mixed / 2 ^ 33)

unfoldable pub slot : SocketAddr → ℕ
unfolding ip_bits
slot address =
    let mixed = shift_mix (ip_bits address) in
    let mixed = mixed * 0xff51afd7ed558ccd % 2 ^ 64 in
    bit_xor (shift_mix mixed) (port_of address) % limit

abbrev pub usable : Links → SocketAddr → Option CachedSession → Option ℕ
usable links address none = none
usable links address (some entry) =
    if same_address entry.address address && is_live (links entry.link)
    then some entry.link
    else none

-- `sender`: the link of the cached session, if it is that of the address and live.
unfoldable pub sender : SessionDispatchCache → Links → SocketAddr → Option ℕ
unfolding slot is_live same_address
sender cache links address = usable links address (cache (slot address))

unfoldable pub remember : SessionDispatchCache → SocketAddr → ℕ → SessionDispatchCache
unfolding slot assign
remember cache address link =
    assign cache (slot address) (some (record { address = address; link = link }))

abbrev pub unless_at : SocketAddr → Option CachedSession → Option CachedSession
unless_at address none = none
unless_at address (some entry) = if same_address entry.address address then none else some entry

unfoldable pub forget : SessionDispatchCache → SocketAddr → SessionDispatchCache
unfolding slot assign same_address
forget cache address = assign cache (slot address) (unless_at address (cache (slot address)))

abbrev pub if_live : Links → Option CachedSession → Option CachedSession
if_live links none = none
if_live links (some entry) = if is_live (links entry.link) then some entry else none

unfoldable pub prune : SessionDispatchCache → Links → SessionDispatchCache
unfolding is_live
prune cache links i = if_live links (cache i)
