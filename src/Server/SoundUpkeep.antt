-- ===== src/Server/SoundUpkeep.antt =====
-- On the other operations of a listener.
use rust_raknet.Prelude.{
  ℕ, ◌≤◌, ◌≡◌, sym, ap, ◌∙◌, subst, inl, inr, Bool, true, false, some, List, [], ◌∷◌, length, arith,
  Bool-cases, Option-cases,
}
use rust_raknet.Error.{Result, ok, err}
use rust_raknet.Bytes.{BytesCrate}
use rust_raknet.Datatype.Address.{SocketAddr}
use rust_raknet.Packet.Id.{PacketId, from}
use rust_raknet.Packet.Id
use rust_raknet.Server.Links.{Link, Links, is_live, close_link}
use rust_raknet.Server.Worker.{Listener, SessionSender, Waiting, Turn, is_recent}
use rust_raknet.Server.Receive.{session_of, receive, on_packet}
use rust_raknet.Server.Upkeep.{
  retain_recent, cleanup, collect, close_links, close_sessions, head_of, accept, set_full_motd,
  socket_closes, receiver_ends, receiver_takes, tail_of,
}
use rust_raknet.Server.Sound.{IsSound, some_eq, dropping-IsSound}
use rust_raknet.Server.SoundParts.{links-IsSound, with_link-IsSound, prune-IsSound}
use rust_raknet.Server.SoundDispatch.{dispatch-IsSound, on_disconnect-IsSound, close_link-is_live}
use rust_raknet.Server.SoundAdmit.{pending-IsSound}
use rust_raknet.Server.SoundRequests.{on_request_1-IsSound, on_request_2-IsSound}

module _ (crate : BytesCrate) where
  on_packet-IsSound :
      (l : Listener) (turn : Turn) (addr : SocketAddr) (buf : List ℕ) (r : Result PacketId)
      → IsSound l
      → IsSound (on_packet crate l turn addr buf r).0
  on_packet-IsSound l turn addr buf (err e) sound = sound
  on_packet-IsSound l turn addr buf (ok Id.unconnected_ping_1) sound = sound
  on_packet-IsSound l turn addr buf (ok Id.unconnected_ping_2) sound = sound
  on_packet-IsSound l turn addr buf (ok Id.open_connection_request_1) sound =
      on_request_1-IsSound crate l turn addr buf sound
  on_packet-IsSound l turn addr buf (ok Id.open_connection_request_2) sound =
      on_request_2-IsSound crate l turn addr buf sound
  on_packet-IsSound l turn addr buf (ok Id.disconnect) sound = on_disconnect-IsSound l addr sound
  on_packet-IsSound l turn addr buf (ok other) sound = dispatch-IsSound l addr buf sound

  pub receive-IsSound :
      (l : Listener) (turn : Turn) (addr : SocketAddr) (buf : List ℕ)
      → IsSound l
      → IsSound (receive crate l turn addr buf).0
  unfolding receive
  receive-IsSound l turn addr [] sound = sound
  receive-IsSound l turn addr (first ∷ rest) sound =
      on_packet-IsSound l turn addr (first ∷ rest) (from first) sound

length-retain_recent :
    (now : ℕ) (entries : List (SocketAddr × (ℕ × ℕ)))
    → length (retain_recent now entries) ≤ length entries
unfolding retain_recent
length-retain_recent now [] = omega arith
length-retain_recent now ((addr, (version, time)) ∷ entries) =
    let rest = length-retain_recent now entries in
    elim (Bool-cases (is_recent now time)) [
      | inl e ↦ rw e (omega (arith, rest))
      | inr e ↦ rw e (omega (arith, rest))
    ]

pub cleanup-IsSound : (l : Listener) (now : ℕ) → IsSound l → IsSound (cleanup l now)
unfolding cleanup
cleanup-IsSound l now sound =
    pending-IsSound _ (retain_recent now l.pending_versions)
      (omega (arith, length-retain_recent now l.pending_versions, sound.pending))
      (prune-IsSound l sound)

dead_when_closed : (link : Link) → link.closed ≡ true → is_live link ≡ false
unfolding is_live
dead_when_closed link h = ground (arith, h)

pub collect-IsSound : (l : Listener) (addr : SocketAddr) → IsSound l → IsSound (collect l addr).0
unfolding collect
collect-IsSound l addr sound = elim (Option-cases (session_of l addr)) [
  | inl e ↦ rw e sound
  | inr (s, e) ↦ elim (Bool-cases (l.links s.link).closed) [
    | inl f ↦
        rw (e, f)
          (dropping-IsSound l addr
            (λ t h.
              ap (λ u. is_live (l.links u.link)) (some_eq (sym h ∙ e))
              ∙ dead_when_closed (l.links s.link) f)
            sound)
    | inr f ↦ rw (e, f) sound
  ]
]

pub close_links-is_live :
    (links : Links) (entries : List (SocketAddr × SessionSender)) (i : ℕ)
    → is_live (close_links links entries i) ≡ true
    → is_live (links i) ≡ true
unfolding close_links
close_links-is_live links [] i h = h
close_links-is_live links ((addr, s) ∷ entries) i h =
    close_link-is_live links s.link i (close_links-is_live (close_link links s.link) entries i h)

pub close_sessions-IsSound : (l : Listener) → IsSound l → IsSound (close_sessions l).0
unfolding close_sessions
close_sessions-IsSound l sound =
    links-IsSound l (close_links l.links l.sessions) (close_links-is_live l.links l.sessions) sound

backlog-IsSound :
    (l : Listener) (sockets : List Waiting)
    → length sockets ≤ l.backlog_size
    → IsSound l
    → IsSound (record l { backlog = sockets })
backlog-IsSound l sockets h sound = record {
  sessions = sound.sessions;
  cached = sound.cached;
  versions = sound.versions;
  pending = sound.pending;
  waiting = h;
}

head_of-IsSound :
    (l : Listener) (closed : Bool) (sockets : List Waiting) {r : Result Waiting} {l' : Listener}
    → length sockets ≤ l.backlog_size
    → head_of l closed sockets ≡ some (r, l')
    → IsSound l
    → IsSound l'
head_of-IsSound l true [] fits h sound = subst IsSound (ap (λ p. p.1) (some_eq h)) sound
head_of-IsSound l false [] fits h sound = absurd cc
head_of-IsSound l closed (socket ∷ sockets) fits h sound =
    subst IsSound (ap (λ p. p.1) (some_eq h))
      (backlog-IsSound l sockets (omega (arith, fits)) sound)

pub accept-IsSound :
    (l : Listener) (listened closed : Bool) {r : Result Waiting} {l' : Listener}
    → accept l listened closed ≡ some (r, l')
    → IsSound l
    → IsSound l'
unfolding accept
accept-IsSound l true closed h sound = head_of-IsSound l closed l.backlog sound.waiting h sound
accept-IsSound l false closed h sound = subst IsSound (ap (λ p. p.1) (some_eq h)) sound

pub motd-IsSound : (l : Listener) (motd : List ℕ) → IsSound l → IsSound (set_full_motd l motd)
unfolding set_full_motd
motd-IsSound l motd sound = record {
  sessions = sound.sessions;
  cached = sound.cached;
  versions = sound.versions;
  pending = sound.pending;
  waiting = sound.waiting;
}

pub socket_closes-IsSound : (l : Listener) (i : ℕ) → IsSound l → IsSound (socket_closes l i)
unfolding socket_closes
socket_closes-IsSound l i sound =
    links-IsSound l (close_link l.links i) (close_link-is_live l.links i) sound

pub receiver_ends-IsSound : (l : Listener) (i : ℕ) → IsSound l → IsSound (receiver_ends l i)
unfolding receiver_ends is_live
receiver_ends-IsSound l i sound =
    with_link-IsSound l i (record (l.links i) { receiving = false })
      (λ h. absurd (ground (arith, h))) sound

pub receiver_takes-IsSound : (l : Listener) (i : ℕ) → IsSound l → IsSound (receiver_takes l i)
unfolding receiver_takes is_live
receiver_takes-IsSound l i sound =
    with_link-IsSound l i (record (l.links i) { inbox = tail_of (l.links i).inbox }) (λ h. h) sound
