-- ===== src/Server/Worker.antt =====
-- The state of a listener of src/server.rs: what its worker, its session collector and `accept`
-- share, with the worker's own maps.
use rust_raknet.Prelude.{
  ℕ, suc, ◌-◌, ◌/◌, ◌^◌, Bool, true, Option, none, some, List, [], ◌∷◌, ◌++◌, length, ltb,
  if◌then◌else◌,
}
use rust_raknet.Prelude.Int.{ℤ}
use rust_raknet.Prelude.Maps.{get, put, without}
use rust_raknet.Datatype.Address.{SocketAddr}
use rust_raknet.Settings.{raknet_protocol_version}
use rust_raknet.Server.Address.{same_address}
use rust_raknet.Server.Links.{Links, fresh_link, assign}
use rust_raknet.Server.Cache.{SessionDispatchCache, empty_cache}

-- `sender` and `close` are the ends of the link.
pub record SessionSender : Type 0 where
  pub link : ℕ
  pub guid : ℕ
  pub mtu : ℕ

-- What the listener keeps of a `RaknetSocket` that waits for `accept`.
pub record Waiting : Type 0 where
  pub peer_addr : SocketAddr
  pub link : ℕ
  pub mtu : ℕ
  pub raknet_version : ℕ

pub record Listener : Type 0 where
  pub guid : ℕ
  pub motd : List ℕ
  pub maximum_mtu : ℕ
  -- The version and the time of a request.
  pub pending_versions : List (SocketAddr × (ℕ × ℕ))
  pub dispatch_cache : SessionDispatchCache
  pub sessions : List (SocketAddr × SessionSender)
  pub version_map : List (SocketAddr × ℕ)
  -- The links, of which the first `made` are.
  pub links : Links
  pub made : ℕ
  -- The channel of new connections: those that wait, how many may, and whether its receiver is
  -- there.
  pub backlog : List Waiting
  pub backlog_size : ℕ
  pub accepting : Bool
  -- Whether the loop of the worker runs.
  pub running : Bool

-- One turn of the loop: `cur_timestamp_millis()`, `Instant::now()` in nanoseconds, and whether
-- `send_to` succeeds.
pub record Turn : Type 0 where
  pub wall : ℤ
  pub now : ℕ
  pub sends : Bool

-- What a turn hands to `send_to`.
abbrev pub Output : Type 0
Output = List (SocketAddr × List ℕ)

-- `time.elapsed().as_secs() < 60`
unfoldable pub is_recent : ℕ → ℕ → Bool
is_recent now time = ltb ((now - time) / 10 ^ 9) 60

abbrev pub recent_version : ℕ → Option (ℕ × ℕ) → ℕ
recent_version now none = raknet_protocol_version
recent_version now (some (version, time)) =
    if is_recent now time then version else raknet_protocol_version

-- The version that the peer asked for in its first request.
unfoldable pub version_of : Listener → ℕ → SocketAddr → ℕ
unfolding is_recent same_address
version_of l now addr = recent_version now (get same_address l.pending_versions addr)

-- From `channel(128)` to `accept_slot.send`.
unfoldable pub admit : Listener → ℕ → SocketAddr → ℕ → ℕ → Listener
unfolding version_of assign same_address
admit l now addr guid mtu =
    let version = version_of l now addr in
    record l {
      pending_versions = without same_address l.pending_versions addr;
      version_map = put same_address l.version_map addr version;
      sessions =
          put same_address l.sessions addr (record { link = l.made; guid = guid; mtu = mtu });
      links = assign l.links l.made fresh_link;
      made = suc l.made;
      backlog =
          l.backlog
          ++ (record { peer_addr = addr; link = l.made; mtu = mtu; raknet_version = version } ∷ []);
    }

-- `connection_sender.try_reserve()`
pub data Reserved : Type 0 where
  reserved backlog_full no_listener : Reserved

unfoldable pub try_reserve : Listener → Reserved
try_reserve l =
    if l.accepting
    then if ltb (length l.backlog) l.backlog_size then reserved else backlog_full
    else no_listener

-- A listener after `listen`, with the discovery text and the size of the backlog that are set.
unfoldable pub new : ℕ → List ℕ → ℕ → ℕ → Listener
new guid motd maximum_mtu backlog_size = record {
  guid = guid;
  motd = motd;
  maximum_mtu = maximum_mtu;
  pending_versions = [];
  dispatch_cache = empty_cache;
  sessions = [];
  version_map = [];
  links = λ i. fresh_link;
  made = 0;
  backlog = [];
  backlog_size = backlog_size;
  accepting = true;
  running = true;
}
