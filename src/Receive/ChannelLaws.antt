-- ===== src/Receive/ChannelLaws.antt =====
-- What `ChannelIndexes` of src/arq.rs gives after an assignment, and tests on keys of its tables.
use rust_raknet.Prelude.{ℕ, true, ◌≡◌, if◌then◌else◌, ◌==◌, arith}
use rust_raknet.Prelude.MapLaws.{IsEquality, get-put}
use rust_raknet.Receive.Fragment.{same}
use rust_raknet.Receive.FragmentTotals.{same-IsEquality}
use rust_raknet.Receive.Channels.{ChannelIndexes, index_of, set_index}
use rust_raknet.Receive.Queue.{same_key}

same_key_refl : (key : ℕ × ℕ) → same_key key key ≡ true
same_key_refl (a, b) = ground arith

same_key_sound : (key other : ℕ × ℕ) → same_key key other ≡ true → key ≡ other
same_key_sound (a, b) (c, d) h =
    let left : a ≡ c = ground arith in let right : b ≡ d = ground arith in cc

pub same_key-IsEquality : IsEquality same_key
same_key-IsEquality = record { reflexive = same_key_refl; sound = same_key_sound }

pub index_of-set_index :
    (c : ChannelIndexes) (channel index other : ℕ)
    → index_of (set_index c channel index) other
      ≡ (if channel == other then index else index_of c other)
unfolding index_of set_index
index_of-set_index c channel index other =
    let law = get-put same same-IsEquality c.others channel other index in ground (arith, law)
