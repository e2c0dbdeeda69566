-- ===== src/Server/Steps.antt =====
-- The steps of a listener and of the sockets of its connections, one at a time.
use rust_raknet.Prelude.{ℕ, ◌≡◌, Bool, true, some, List, arith, refl}
use rust_raknet.Error.{Result}
use rust_raknet.Bytes.{BytesCrate}
use rust_raknet.Datatype.Address.{SocketAddr}
use rust_raknet.Server.Worker.{Listener, Waiting, Turn, new}
use rust_raknet.Server.Receive.{receive}
use rust_raknet.Server.Upkeep.{
  cleanup, collect, accept, set_full_motd, socket_closes, receiver_ends, receiver_takes,
}
use rust_raknet.Server.Sound.{IsSound}
use rust_raknet.Server.SoundUpkeep.{
  receive-IsSound, cleanup-IsSound, collect-IsSound, accept-IsSound, motd-IsSound,
  socket_closes-IsSound, receiver_ends-IsSound, receiver_takes-IsSound,
}

pub data Step (crate : BytesCrate) : Listener → Listener → Type 0 where
  received :
      (l : Listener) (turn : Turn) (addr : SocketAddr) (buf : List ℕ)
      → l.running ≡ true
      → Step crate l (receive crate l turn addr buf).0
  ticked : (l : Listener) (now : ℕ) → l.running ≡ true → Step crate l (cleanup l now)
  collected : (l : Listener) (addr : SocketAddr) → Step crate l (collect l addr).0
  took :
      (l : Listener) (listened closed : Bool) (r : Result Waiting) (l' : Listener)
      → accept l listened closed ≡ some (r, l')
      → Step crate l l'
  renamed : (l : Listener) (motd : List ℕ) → Step crate l (set_full_motd l motd)
  left_by : (l : Listener) (link : ℕ) → Step crate l (socket_closes l link)
  ended : (l : Listener) (link : ℕ) → Step crate l (receiver_ends l link)
  taken : (l : Listener) (link : ℕ) → Step crate l (receiver_takes l link)

-- The states after any steps of a new listener.
pub data Reached (crate : BytesCrate) (first : Listener) : Listener → Type 0 where
  start : Reached crate first first
  then_by : {l l' : Listener} → Reached crate first l → Step crate l l' → Reached crate first l'

pub Step-IsSound : {crate : BytesCrate} {l l' : Listener} → Step crate l l' → IsSound l → IsSound l'
Step-IsSound (received l turn addr buf running) sound = receive-IsSound _ l turn addr buf sound
Step-IsSound (ticked l now running) sound = cleanup-IsSound l now sound
Step-IsSound (collected l addr) sound = collect-IsSound l addr sound
Step-IsSound (took l listened closed r l' h) sound = accept-IsSound l listened closed h sound
Step-IsSound (renamed l motd) sound = motd-IsSound l motd sound
Step-IsSound (left_by l link) sound = socket_closes-IsSound l link sound
Step-IsSound (ended l link) sound = receiver_ends-IsSound l link sound
Step-IsSound (taken l link) sound = receiver_takes-IsSound l link sound

pub new-IsSound :
    (guid : ℕ) (motd : List ℕ) (maximum_mtu backlog_size : ℕ)
    → IsSound (new guid motd maximum_mtu backlog_size)
unfolding new
new-IsSound guid motd maximum_mtu backlog_size = record {
  sessions = λ a s h. absurd cc;
  cached = λ i c h. absurd cc;
  versions = λ a. refl;
  pending = omega arith;
  waiting = omega arith;
}

pub then_by-IsSound :
    {crate : BytesCrate} {first l : Listener} → IsSound first → Reached crate first l → IsSound l
then_by-IsSound sound start = sound
then_by-IsSound sound (then_by before step) = Step-IsSound step (then_by-IsSound sound before)

-- In any state that datagrams, cleanups, collections, accepts and changes of the message of the
-- day, and the sockets of the connections that close, end or take datagrams, lead a new listener
-- to, in any order: sessions and versions have the same addresses, a cached session whose link is
-- live is the session of its address, at most 4096 versions wait, at most as many connections wait
-- as the backlog allows, and the size of each session is between 61 and the maximum.
pub Listener-IsSound :
    (crate : BytesCrate) (guid : ℕ) (motd : List ℕ) (maximum_mtu backlog_size : ℕ) (l : Listener)
    → Reached crate (new guid motd maximum_mtu backlog_size) l
    → IsSound l
Listener-IsSound crate guid motd maximum_mtu backlog_size l reached =
    then_by-IsSound (new-IsSound guid motd maximum_mtu backlog_size) reached
