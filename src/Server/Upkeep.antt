-- ===== src/Server/Upkeep.antt =====
-- The other operations on a listener of src/server.rs: the cleanup of its worker, the session
-- collector, `accept`, and the setters and getters; and what the sockets of its connections do.
use rust_raknet.Prelude.{ℕ, Bool, false, Option, none, some, List, [], ◌∷◌, map, if◌then◌else◌}
use rust_raknet.Prelude.Maps.{get}
use rust_raknet.Error.{Result, ok, err, not_listen}
use rust_raknet.Datatype.Address.{SocketAddr}
use rust_raknet.Packet.Id.{to_u8, disconnect}
use rust_raknet.Settings.{raknet_protocol_version}
use rust_raknet.Server.Address.{same_address}
use rust_raknet.Server.Links.{Links, close_link, assign}
use rust_raknet.Server.Cache.{prune}
use rust_raknet.Server.Worker.{Listener, SessionSender, Waiting, Output, is_recent}
use rust_raknet.Server.Receive.{dropping, session_of, with_link}

-- `pending_versions.retain(|_, (_, time)| time.elapsed().as_secs() < 60)`
unfoldable pub retain_recent : ℕ → List (SocketAddr × (ℕ × ℕ)) → List (SocketAddr × (ℕ × ℕ))
unfolding is_recent
retain_recent now [] = []
retain_recent now ((addr, (version, time)) ∷ entries) =
    let rest = retain_recent now entries in
    if is_recent now time then (addr, (version, time)) ∷ rest else rest

-- `cleanup.tick()`
unfoldable pub cleanup : Listener → ℕ → Listener
unfolding retain_recent prune
cleanup l now = record l {
  pending_versions = retain_recent now l.pending_versions;
  dispatch_cache = prune l.dispatch_cache l.links;
}

abbrev pub goodbye : SocketAddr → SocketAddr × List ℕ
goodbye addr = (addr, to_u8 disconnect ∷ [])

abbrev pub collect_session : Listener → SocketAddr → Option SessionSender → Listener × Output
collect_session l addr none = (l, [])
collect_session l addr (some session) =
    if (l.links session.link).closed then (dropping l addr, goodbye addr ∷ []) else (l, [])

-- The collector with the address of a socket that ended.
unfoldable pub collect : Listener → SocketAddr → Listener × Output
unfolding same_address dropping to_u8
collect l addr = collect_session l addr (session_of l addr)

-- `for (addr, session) in sessions.iter() { session.close.close(); … }`
unfoldable pub close_links : Links → List (SocketAddr × SessionSender) → Links
unfolding close_link
close_links links [] = links
close_links links ((addr, session) ∷ entries) = close_links (close_link links session.link) entries

abbrev pub goodbyes : List (SocketAddr × SessionSender) → Output
goodbyes entries = map (λ entry. goodbye entry.0) entries

unfoldable pub close_sessions : Listener → Listener × Output
unfolding close_links to_u8
close_sessions l = (record l { links = close_links l.links l.sessions }, goodbyes l.sessions)

abbrev pub late_session : Listener → SocketAddr → Option SessionSender → Listener × Output
late_session l addr none = (l, [])
late_session l addr (some session) = (dropping l addr, goodbye addr ∷ [])

abbrev pub unless_empty : Listener → Listener → List (SocketAddr × SessionSender) → Listener
unless_empty l rest [] = l
unless_empty l rest (entry ∷ entries) = rest

-- The messages that still come, until no session is left or the channel is closed.
unfoldable pub collect_rest : Listener → List SocketAddr → Listener
unfolding dropping same_address to_u8
collect_rest l [] = l
collect_rest l (addr ∷ messages) =
    let rest = collect_rest (late_session l addr (session_of l addr)).0 messages in
    unless_empty l rest l.sessions

-- The collector once `close_notifier` is closed.
unfoldable pub shut_down : Listener → List SocketAddr → Listener
unfolding collect_rest close_sessions
shut_down l messages = record (collect_rest (close_sessions l).0 messages) {
  sessions = [];
  version_map = [];
}

abbrev pub head_of : Listener → Bool → List Waiting → Option (Result Waiting × Listener)
head_of l closed [] = if closed then some (err not_listen, l) else none
head_of l closed (socket ∷ sockets) = some (ok socket, record l { backlog = sockets })

-- `accept`, with whether `close_notifier` is closed; `none` where it waits. Where a connection
-- waits and the listener is closed too, `select!` may take either branch, here the connection.
unfoldable pub accept : Listener → Bool → Bool → Option (Result Waiting × Listener)
accept l listened closed = if listened then head_of l closed l.backlog else some (err not_listen, l)

unfoldable pub set_full_motd : Listener → List ℕ → Listener
set_full_motd l motd = record l { motd = motd }

abbrev pub version_or : Option ℕ → ℕ → ℕ
version_or none next = next
version_or (some version) next = version

-- `get_peer_raknet_version` on a listener and its shards.
unfoldable pub get_peer_raknet_version : List Listener → SocketAddr → ℕ
unfolding same_address
get_peer_raknet_version [] peer = raknet_protocol_version
get_peer_raknet_version (l ∷ shards) peer =
    let rest = get_peer_raknet_version shards peer in
    version_or (get same_address l.version_map peer) rest

-- A socket closes its semaphore.
unfoldable pub socket_closes : Listener → ℕ → Listener
unfolding close_link
socket_closes l link = record l { links = close_link l.links link }

-- The receiver task of a socket ends.
unfoldable pub receiver_ends : Listener → ℕ → Listener
unfolding assign
receiver_ends l link = with_link l link (record (l.links link) { receiving = false })

abbrev pub tail_of : List (List ℕ) → List (List ℕ)
tail_of [] = []
tail_of (datagram ∷ datagrams) = datagrams

-- The receiver task of a socket takes a datagram.
unfoldable pub receiver_takes : Listener → ℕ → Listener
unfolding assign
receiver_takes l link =
    with_link l link (record (l.links link) { inbox = tail_of (l.links link).inbox })
