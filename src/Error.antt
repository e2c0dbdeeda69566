-- ===== src/Error.antt =====
-- src/error.rs: the errors of the crate, and its `Result` with the `?` operator as a bind.
use rust_raknet.Prelude.{Option, none, some, Bool, true, false}

pub data RaknetError : Type 0 where
  set_raknet_raw_socket_error not_listen bind_address_error connection_closed : RaknetError
  not_support_version incorrect_reply packet_parse_error socket_error : RaknetError
  incorrect_reliability incorrect_packet_id read_packet_buffer_error : RaknetError
  packet_size_exceed_mtu packet_header_error set_motd_error : RaknetError

pub data Result {ℓ} (A : Type ℓ) : Type ℓ where
  ok : A → Result A
  err : RaknetError → Result A

-- `m?` followed by the rest of the function.
infixl 5 ◌>>=◌ ◌>>◌
abbrev pub ◌>>=◌ {ℓ κ} : {A : Type ℓ} {B : Type κ} → Result A → (A → Result B) → Result B
ok a >>= f = f a
err e >>= f = err e

abbrev pub ◌>>◌ {ℓ κ} : {A : Type ℓ} {B : Type κ} → Result A → Result B → Result B
m >> k = m >>= λ _. k

-- The same as a function, for files with another bind.
abbrev pub and_then {ℓ κ} : {A : Type ℓ} {B : Type κ} → Result A → (A → Result B) → Result B
and_then r f = r >>= f

-- `if test { return Err(e) }`.
abbrev pub refuse : Bool → RaknetError → Result (Unit {0})
refuse true e = err e
refuse false e = ok tt

abbrev pub ok_or {ℓ} : {A : Type ℓ} → Option A → RaknetError → Result A
ok_or none e = err e
ok_or (some a) e = ok a
