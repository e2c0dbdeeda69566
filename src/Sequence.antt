-- ===== src/Sequence.antt =====
-- src/sequence.rs: arithmetic of RakNet's 24-bit serial numbers, and the window of reliable frames.
pub mod Order
pub mod Window
pub mod Accept
mod Tests
use rust_raknet.Prelude.{
  ℕ, zero, suc, ◌+◌, ◌-◌, ◌%◌, ◌^◌, ◌≡◌, Bool, true, false, not, ◌&&◌, List, [], ◌∷◌, length, ltb,
  leb, ◌==◌, if◌then◌else◌,
}
use rust_raknet.Prelude.Sets.{contains, insert, remove}
use rust_raknet.Error.{RaknetError, packet_parse_error, Result, ok, err}

abbrev pub mask : ℕ
mask = 0x00ff_ffff

abbrev pub half : ℕ
half = 0x0080_0000

abbrev pub receive_window : ℕ
receive_window = 65_536

-- `value.wrapping_add(1) & MASK`, with the mask of 24 ones as a remainder.
unfoldable pub next : ℕ → ℕ
next value = (value + 1) % 2 ^ 32 % (mask + 1)

-- `value.wrapping_sub(base) & MASK`
unfoldable pub distance : ℕ → ℕ → ℕ
distance value base = (value + 2 ^ 32 - base) % 2 ^ 32 % (mask + 1)

unfoldable pub newer : ℕ → ℕ → Bool
unfolding distance
newer value base = let delta = distance value base in not (delta == 0) && ltb delta half

pub record ReliableWindow : Type 0 where
  pub next : ℕ
  pub pending : List ℕ

abbrev pub ReliableWindow_default : ReliableWindow
ReliableWindow_default = record { next = 0; pending = [] }

-- `while self.pending.remove(&self.next) { self.next = next(self.next); }`, each round of which
-- takes a value out of `pending`.
unfoldable pub drain : ℕ → ℕ → List ℕ → ReliableWindow
drain zero n pending = record { next = n; pending = pending }
drain (suc fuel) n pending =
    let rest = drain fuel (next n) (remove pending n) in
    if contains pending n then rest else record { next = n; pending = pending }

-- The result, and the window after the call.
unfoldable pub accept : ReliableWindow → ℕ → Result Bool × ReliableWindow
accept w index =
    let delta = distance index w.next in
    if leb half delta
    then (ok false, w)
    else if leb receive_window delta
    then (err packet_parse_error, w)
    else if not (delta == 0)
    then (let (fresh, pending') = insert w.pending index in
        (ok fresh, record w { pending = pending' }))
    else (ok true, drain (length w.pending) (next w.next) w.pending)
