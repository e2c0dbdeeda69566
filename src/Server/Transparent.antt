-- ===== src/Server/Transparent.antt =====
-- On the dispatch cache: a listener with it against one that has forgotten every entry.
use rust_raknet.Prelude.{
  ℕ, ◌≡◌, refl, sym, ap, ◌∙◌, inl, inr, not, ◌&&◌, Option, none, some, List, [], ◌∷◌, Bool-cases,
  Option-cases, leb, length,
}
use rust_raknet.Error.{Result, ok, err}
use rust_raknet.Bytes.{BytesCrate}
use rust_raknet.Datatype.Address.{SocketAddr}
use rust_raknet.Prelude.Maps.{get, is_some}
use rust_raknet.Prelude.Sets.{contains}
use rust_raknet.Settings.{raknet_protocol_version_list}
use rust_raknet.Packet.Id.{PacketId, from}
use rust_raknet.Packet.Id
use rust_raknet.Packet.OpenConnection.{
  OpenConnectionRequest1, OpenConnectionRequest2, read_packet_connection_open_request_1,
  read_packet_connection_open_request_2,
}
use rust_raknet.Server.Address.{same_address}
use rust_raknet.Server.Cache.{SessionDispatchCache, empty_cache, sender}
use rust_raknet.Server.Worker.{
  Listener, SessionSender, Turn, Output, Reserved, reserved, backlog_full, no_listener, try_reserve,
  admit, version_of,
}
use rust_raknet.Server.Receive.{
  session_of, forgetting, remembering, dropping, send_on, dispatch, through_sessions, on_disconnect,
  on_ping, on_request_1, answer_request_1, on_request_2, answer_request_2, with_slot, acknowledge,
  reply_2, already, on_packet, receive,
}
use rust_raknet.Server.Sound.{IsSound}
use rust_raknet.Server.SoundParts.{cache-IsSound}
use rust_raknet.Server.SoundDispatch.{sender-session_of, try_send_cases}

-- A listener whose cache is empty.
abbrev pub uncached : Listener → Listener
uncached l = record l { dispatch_cache = empty_cache }

-- Dispatch by the map of sessions alone.
abbrev pub deliver_to : Listener → SocketAddr → List ℕ → Option SessionSender → Listener
deliver_to l addr datagram none = l
deliver_to l addr datagram (some session) = send_on l addr session.link datagram

abbrev pub deliver : Listener → SocketAddr → List ℕ → Listener
deliver l addr datagram = deliver_to l addr datagram (session_of l addr)

abbrev pub with_cache : Listener → SessionDispatchCache → Listener
with_cache l cache = record l { dispatch_cache = cache }

-- Sending does not look at the cache.
uncached-send_on :
    (l : Listener) (cache : SessionDispatchCache) (addr : SocketAddr) (link : ℕ) (datagram : List ℕ)
    → uncached (send_on (with_cache l cache) addr link datagram)
      ≡ uncached (send_on l addr link datagram)
unfolding dropping
uncached-send_on l cache addr link datagram = elim (try_send_cases (l.links link) datagram) [
  | inl e ↦ rw e refl
  | inr (inl e) ↦ rw e refl
  | inr (inr (e, gone)) ↦ rw e refl
]

uncached-through_sessions :
    (l : Listener) (cache : SessionDispatchCache) (addr : SocketAddr) (datagram : List ℕ)
    (s : Option SessionSender)
    → uncached (through_sessions (with_cache l cache) addr datagram s)
      ≡ uncached (deliver_to l addr datagram s)
uncached-through_sessions l cache addr datagram none = refl
uncached-through_sessions l cache addr datagram (some s) =
    uncached-send_on l (remembering (with_cache l cache) addr s.link).dispatch_cache addr s.link
      datagram

pub dispatch-deliver :
    (l : Listener) (addr : SocketAddr) (datagram : List ℕ)
    → IsSound l
    → uncached (dispatch l addr datagram) ≡ uncached (deliver l addr datagram)
unfolding dispatch
dispatch-deliver l addr datagram sound =
    elim (Option-cases (sender l.dispatch_cache l.links addr)) [
      | inl e ↦ rw e (
          uncached-through_sessions l (forgetting l addr).dispatch_cache addr datagram
            (session_of l addr))
      | inr (link, e) ↦
          let (s, here, eq) = sender-session_of l addr link sound e in rw (e, here, eq) refl
    ]

uncached-IsSound : (l : Listener) → IsSound l → IsSound (uncached l)
uncached-IsSound l sound = cache-IsSound l empty_cache (λ i c h. absurd cc) sound

uncached-deliver_to :
    (l : Listener) (addr : SocketAddr) (datagram : List ℕ) (s : Option SessionSender)
    → uncached (deliver_to (uncached l) addr datagram s) ≡ uncached (deliver_to l addr datagram s)
uncached-deliver_to l addr datagram none = refl
uncached-deliver_to l addr datagram (some s) = uncached-send_on l empty_cache addr s.link datagram

uncached-dispatch :
    (l : Listener) (addr : SocketAddr) (datagram : List ℕ)
    → IsSound l
    → uncached (dispatch l addr datagram) ≡ uncached (dispatch (uncached l) addr datagram)
uncached-dispatch l addr datagram sound =
    dispatch-deliver l addr datagram sound
    ∙ sym (uncached-deliver_to l addr datagram (session_of l addr))
    ∙ sym (dispatch-deliver (uncached l) addr datagram (uncached-IsSound l sound))

uncached-on_disconnect :
    (l : Listener) (addr : SocketAddr)
    → uncached (on_disconnect l addr) ≡ uncached (on_disconnect (uncached l) addr)
unfolding on_disconnect dropping
uncached-on_disconnect l addr = elim (Option-cases (session_of l addr)) [
  | inl e ↦ rw e refl
  | inr (s, e) ↦ rw e refl
]

-- The state without the cache, and the output.
abbrev pub seen : Listener × Output → Listener × Output
seen (l, output) = (uncached l, output)

module _ (crate : BytesCrate) where
  request_1_uncached :
      (l : Listener) (turn : Turn) (addr : SocketAddr) (r : Result OpenConnectionRequest1)
      → seen (answer_request_1 crate l turn addr r)
        ≡ seen (answer_request_1 crate (uncached l) turn addr r)
  request_1_uncached l turn addr (err e) = refl
  request_1_uncached l turn addr (ok req) =
      elim (Bool-cases (contains raknet_protocol_version_list req.protocol_version)) [
        | inr e ↦ rw e refl
        | inl e ↦
            elim (Bool-cases (
              leb 4096 (length l.pending_versions)
              && not (is_some (get same_address l.pending_versions addr)))) [
                | inl f ↦ rw (e, f) refl
                | inr f ↦ rw (e, f) refl
              ]
      ]

  acknowledge_uncached :
      (l : Listener) (cache : SessionDispatchCache) (turn : Turn) (addr : SocketAddr)
      (req : OpenConnectionRequest2) (reply : Result (List ℕ))
      → seen (acknowledge crate (with_cache l cache) turn addr req reply)
        ≡ seen (acknowledge crate l turn addr req reply)
  unfolding admit version_of
  acknowledge_uncached l cache turn addr req (err e) = refl
  acknowledge_uncached l cache turn addr req (ok bytes) = elim (Bool-cases turn.sends) [
    | inl e ↦ rw e refl
    | inr e ↦ rw e refl
  ]

  with_slot_uncached :
      (l : Listener) (cache : SessionDispatchCache) (turn : Turn) (addr : SocketAddr)
      (req : OpenConnectionRequest2) (r : Reserved)
      → seen (with_slot crate (with_cache l cache) turn addr req r)
        ≡ seen (with_slot crate l turn addr req r)
  unfolding reply_2
  with_slot_uncached l cache turn addr req reserved =
      acknowledge_uncached l cache turn addr req (reply_2 crate l addr req.mtu)
  with_slot_uncached l cache turn addr req backlog_full = refl
  with_slot_uncached l cache turn addr req no_listener = refl

  request_2_uncached :
      (l : Listener) (cache : SessionDispatchCache) (turn : Turn) (addr : SocketAddr)
      (r : Result OpenConnectionRequest2)
      → seen (answer_request_2 crate (with_cache l cache) turn addr r)
        ≡ seen (answer_request_2 crate l turn addr r)
  unfolding try_reserve reply_2 already
  request_2_uncached l cache turn addr (err e) = refl
  request_2_uncached l cache turn addr (ok req) =
      elim (Bool-cases (leb 61 req.mtu && leb req.mtu l.maximum_mtu)) [
        | inr e ↦ rw e refl
        | inl e ↦ elim (Option-cases (session_of l addr)) [
          | inl f ↦ rw (e, f) (with_slot_uncached l cache turn addr req (try_reserve l))
          | inr (s, f) ↦ rw (e, f) refl
        ]
      ]

  on_request_2-uncached :
      (l : Listener) (turn : Turn) (addr : SocketAddr) (buf : List ℕ)
      → seen (on_request_2 crate l turn addr buf)
        ≡ seen (on_request_2 crate (uncached l) turn addr buf)
  unfolding on_request_2
  on_request_2-uncached l turn addr buf =
      let request = read_packet_connection_open_request_2 crate buf in
      request_2_uncached l (forgetting l addr).dispatch_cache turn addr request
      ∙ sym (request_2_uncached l (forgetting (uncached l) addr).dispatch_cache turn addr request)

  on_packet-uncached :
      (l : Listener) (turn : Turn) (addr : SocketAddr) (buf : List ℕ) (r : Result PacketId)
      → IsSound l
      → seen (on_packet crate l turn addr buf r)
        ≡ seen (on_packet crate (uncached l) turn addr buf r)
  unfolding on_ping on_request_1
  on_packet-uncached l turn addr buf (err e) sound = refl
  on_packet-uncached l turn addr buf (ok Id.unconnected_ping_1) sound = refl
  on_packet-uncached l turn addr buf (ok Id.unconnected_ping_2) sound = refl
  on_packet-uncached l turn addr buf (ok Id.open_connection_request_1) sound =
      request_1_uncached l turn addr (read_packet_connection_open_request_1 crate buf)
  on_packet-uncached l turn addr buf (ok Id.open_connection_request_2) sound =
      on_request_2-uncached l turn addr buf
  on_packet-uncached l turn addr buf (ok Id.disconnect) sound =
      ap (λ m. (m, [])) (uncached-on_disconnect l addr)
  on_packet-uncached l turn addr buf (ok other) sound =
      ap (λ m. (m, [])) (uncached-dispatch l addr buf sound)

  -- In a sound listener, a datagram has the same effect, the cache aside, and the same output as
  -- it has in the listener with an empty cache.
  pub receive-uncached :
      (l : Listener) (turn : Turn) (addr : SocketAddr) (buf : List ℕ)
      → IsSound l
      → seen (receive crate l turn addr buf) ≡ seen (receive crate (uncached l) turn addr buf)
  unfolding receive
  receive-uncached l turn addr [] sound = refl
  receive-uncached l turn addr (first ∷ rest) sound =
      on_packet-uncached l turn addr (first ∷ rest) (from first) sound
