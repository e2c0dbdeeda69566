-- ===== src/Server/Deliver.antt =====
-- On the datagrams that reach the receiver of a session.
use rust_raknet.Prelude.{
  ℕ, ◌≡◌, ◌<◌, refl, ap, ◌∙◌, true, some, List, [], ◌∷◌, ◌++◌, length, lt→ltb,
}
use rust_raknet.Datatype.Address.{SocketAddr}
use rust_raknet.Server.Links.{Link, accepted, capacity, try_send, assign}
use rust_raknet.Server.Worker.{Listener, SessionSender}
use rust_raknet.Server.Receive.{session_of, dispatch}
use rust_raknet.Server.Sound.{IsSound}
use rust_raknet.Server.Transparent.{deliver, dispatch-deliver}

try_send-accepted :
    (link : Link) (datagram : List ℕ)
    → link.receiving ≡ true
    → length link.inbox < capacity
    → try_send link datagram ≡ (accepted, record link { inbox = link.inbox ++ (datagram ∷ []) })
unfolding try_send
try_send-accepted link datagram ready room =
    rw (ready, lt→ltb (length link.inbox) capacity room) refl

deliver-links :
    (l : Listener) (addr : SocketAddr) (s : SessionSender) (datagram : List ℕ)
    → session_of l addr ≡ some s
    → (l.links s.link).receiving ≡ true
    → length (l.links s.link).inbox < capacity
    → (deliver l addr datagram).links
      ≡ assign l.links s.link
          (record (l.links s.link) { inbox = (l.links s.link).inbox ++ (datagram ∷ []) })
deliver-links l addr s datagram here ready room =
    rw (here, try_send-accepted (l.links s.link) datagram ready room) refl

-- In a sound listener, a datagram of a connection from an address with a session whose receiver is
-- there and whose channel has room, is put behind those in the channel of that session, and no
-- other link changes.
pub dispatch-links :
    (l : Listener) (addr : SocketAddr) (s : SessionSender) (datagram : List ℕ)
    → IsSound l
    → session_of l addr ≡ some s
    → (l.links s.link).receiving ≡ true
    → length (l.links s.link).inbox < capacity
    → (dispatch l addr datagram).links
      ≡ assign l.links s.link
          (record (l.links s.link) { inbox = (l.links s.link).inbox ++ (datagram ∷ []) })
dispatch-links l addr s datagram sound here ready room =
    ap (λ m. m.links) (dispatch-deliver l addr datagram sound)
    ∙ deliver-links l addr s datagram here ready room
