-- ===== src/Frame/Reliability.antt =====
-- `Reliability` of src/arq.rs.
use Prim.Native.Nat.{bit_and}
use rust_raknet.Prelude.{
  ℕ, ◌*◌, ◌/◌, ◌%◌, ◌^◌, ◌≡◌, refl, Bool, true, false, not, ◌==◌, if◌then◌else◌,
}
use rust_raknet.Error.{Result, ok, err, incorrect_reliability}

pub data Reliability : Type 0 where
  unreliable unreliable_sequenced reliable reliable_ordered reliable_sequenced : Reliability

unfoldable pub to_u8 : Reliability → ℕ
to_u8 unreliable = 0x00
to_u8 unreliable_sequenced = 0x01
to_u8 reliable = 0x02
to_u8 reliable_ordered = 0x03
to_u8 reliable_sequenced = 0x04

unfoldable pub try_from : ℕ → Result Reliability
try_from flags =
    if flags == 0x00
    then ok unreliable
    else if flags == 0x01
    then ok unreliable_sequenced
    else if flags == 0x02
    then ok reliable
    else if flags == 0x03
    then ok reliable_ordered
    else if flags == 0x04
    then ok reliable_sequenced
    else err incorrect_reliability

-- `Reliability::from`
unfoldable pub from : ℕ → Result Reliability
unfolding try_from
from flags = try_from flags

-- The three tests that the code makes on a reliability by `matches!`.
unfoldable pub has_reliable_index : Reliability → Bool
has_reliable_index reliable = true
has_reliable_index reliable_ordered = true
has_reliable_index reliable_sequenced = true
has_reliable_index _ = false

unfoldable pub has_ordered_index : Reliability → Bool
has_ordered_index unreliable_sequenced = true
has_ordered_index reliable_ordered = true
has_ordered_index reliable_sequenced = true
has_ordered_index _ = false

unfoldable pub has_sequenced_index : Reliability → Bool
has_sequenced_index unreliable_sequenced = true
has_sequenced_index reliable_sequenced = true
has_sequenced_index _ = false

-- `Reliability::from((flags & 224) >> 5)` and `(flags & 16) != 0` of a frame's flags.
unfoldable pub reliability_of : ℕ → Result Reliability
unfolding from
reliability_of flags = from (bit_and flags 224 / 2 ^ 5)

unfoldable pub fragment_bit : ℕ → Bool
fragment_bit flags = not (bit_and flags 16 == 0)

-- `r.to_u8() << 5`
unfoldable pub flags_of : Reliability → ℕ
unfolding to_u8
flags_of r = to_u8 r * 2 ^ 5 % 2 ^ 8

pub from-to_u8 : (r : Reliability) → from (to_u8 r) ≡ ok r
unfolding from to_u8
from-to_u8 unreliable = refl
from-to_u8 unreliable_sequenced = refl
from-to_u8 reliable = refl
from-to_u8 reliable_ordered = refl
from-to_u8 reliable_sequenced = refl

pub reliability_of-flags_of : (r : Reliability) → reliability_of (flags_of r) ≡ ok r
unfolding reliability_of flags_of
reliability_of-flags_of unreliable = refl
reliability_of-flags_of unreliable_sequenced = refl
reliability_of-flags_of reliable = refl
reliability_of-flags_of reliable_ordered = refl
reliability_of-flags_of reliable_sequenced = refl
