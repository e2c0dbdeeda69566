-- ===== src/Receive/Channels.antt =====
-- `ChannelIndexes` of src/arq.rs: an index for each channel.
use rust_raknet.Prelude.{ℕ, Option, none, some, List, [], ◌==◌, if◌then◌else◌}
use rust_raknet.Prelude.Maps.{get, put}
use rust_raknet.Receive.Fragment.{same}

pub record ChannelIndexes : Type 0 where
  pub primary : ℕ
  pub others : List (ℕ × ℕ)

abbrev pub ChannelIndexes_default : ChannelIndexes
ChannelIndexes_default = record { primary = 0; others = [] }

abbrev pub or_zero : Option ℕ → ℕ
or_zero (some index) = index
or_zero none = 0

-- `get`
unfoldable pub index_of : ChannelIndexes → ℕ → ℕ
index_of c channel = if channel == 0 then c.primary else or_zero (get same c.others channel)

-- An assignment through `get_mut`.
unfoldable pub set_index : ChannelIndexes → ℕ → ℕ → ChannelIndexes
set_index c channel index =
    if channel == 0
    then record c { primary = index }
    else record c { others = put same c.others channel index }
