-- ===== src/Settings.antt =====
-- The constants of src/utils.rs.
use rust_raknet.Prelude.{ℕ, List, [], ◌∷◌}

abbrev pub raknet_protocol_version : ℕ
raknet_protocol_version = 10

abbrev pub raknet_protocol_version_list : List ℕ
raknet_protocol_version_list = 10 ∷ 11 ∷ []

abbrev pub raknet_client_mtu : ℕ
raknet_client_mtu = 1400

abbrev pub raknet_max_mtu : ℕ
raknet_max_mtu = 1492

abbrev pub receive_timeout : ℕ
receive_timeout = 60_000
