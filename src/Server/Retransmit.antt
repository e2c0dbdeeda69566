-- ===== src/Server/Retransmit.antt =====
-- On a second request of a peer that comes again.
use rust_raknet.Prelude.{
  ℕ, ◌≡◌, refl, inl, inr, true, ◌&&◌, none, some, List, [], ◌∷◌, Bool-cases, leb, ==_refl,
}
use rust_raknet.Error.{Result, ok, err}
use rust_raknet.Bytes.{BytesCrate}
use rust_raknet.Datatype.Address.{SocketAddr}
use rust_raknet.Packet.OpenConnection.{
  OpenConnectionRequest2, read_packet_connection_open_request_2,
}
use rust_raknet.Server.Address.{same_address-IsEquality}
use rust_raknet.Server.Cache.{SessionDispatchCache}
use rust_raknet.Server.Worker.{
  Listener, SessionSender, Turn, Output, Reserved, reserved, backlog_full, no_listener, try_reserve,
  admit,
}
use rust_raknet.Server.Receive.{
  session_of, forgetting, on_request_2, answer_request_2, with_slot, acknowledge, reply_2,
}
use rust_raknet.Server.SoundAdmit.{session_of-admit}
use rust_raknet.Server.Transparent.{seen, with_cache}

module _ (crate : BytesCrate) where
  -- The listener after a turn, and its output.
  abbrev Again :
      Listener
      → SessionDispatchCache
      → Turn
      → SocketAddr
      → OpenConnectionRequest2
      → Listener × Output
      → Type 0
  Again l cache turn addr req made =
      (s : SessionSender)
      → session_of made.0 addr ≡ some s
      → seen (answer_request_2 crate (with_cache made.0 cache) turn addr (ok req)) ≡ seen made

  after_admit :
      (l : Listener) (cache : SessionDispatchCache) (now : ℕ) (turn : Turn) (addr : SocketAddr)
      (req : OpenConnectionRequest2) (bytes : List ℕ)
      → (leb 61 req.mtu && leb req.mtu l.maximum_mtu) ≡ true
      → reply_2 crate l addr req.mtu ≡ ok bytes
      → Again l cache turn addr req (admit l now addr req.guid req.mtu, (addr, bytes) ∷ [])
  unfolding admit reply_2
  after_admit l cache now turn addr req bytes fits reply s h =
      elim (session_of-admit l now addr req.guid req.mtu addr) [
        | inl (same, e) ↦ rw (fits, e, ==_refl req.guid, reply) refl
        | inr (other, e) ↦ absurd (let g = same_address-IsEquality.reflexive addr in cc)
      ]

  acknowledged :
      (l : Listener) (cache : SessionDispatchCache) (first again : Turn) (addr : SocketAddr)
      (req : OpenConnectionRequest2) (reply : Result (List ℕ))
      → session_of l addr ≡ none
      → (leb 61 req.mtu && leb req.mtu l.maximum_mtu) ≡ true
      → reply_2 crate l addr req.mtu ≡ reply
      → Again l cache again addr req (acknowledge crate l first addr req reply)
  acknowledged l cache first again addr req (err e) fresh fits eq = λ s h. absurd cc
  acknowledged l cache first again addr req (ok bytes) fresh fits eq =
      elim (Bool-cases first.sends) [
        | inl e ↦ rw e (after_admit l cache first.now again addr req bytes fits eq)
        | inr e ↦ rw e (λ s h. absurd cc)
      ]

  slotted :
      (l : Listener) (cache : SessionDispatchCache) (first again : Turn) (addr : SocketAddr)
      (req : OpenConnectionRequest2) (r : Reserved)
      → session_of l addr ≡ none
      → (leb 61 req.mtu && leb req.mtu l.maximum_mtu) ≡ true
      → Again l cache again addr req (with_slot crate l first addr req r)
  slotted l cache first again addr req reserved fresh fits =
      acknowledged l cache first again addr req (reply_2 crate l addr req.mtu) fresh fits refl
  slotted l cache first again addr req backlog_full fresh fits = λ s h. absurd cc
  slotted l cache first again addr req no_listener fresh fits = λ s h. absurd cc

  answered :
      (l : Listener) (cache : SessionDispatchCache) (first again : Turn) (addr : SocketAddr)
      (r : Result OpenConnectionRequest2) (s : SessionSender)
      → session_of l addr ≡ none
      → session_of (answer_request_2 crate l first addr r).0 addr ≡ some s
      → seen (
          answer_request_2 crate
            (with_cache (answer_request_2 crate l first addr r).0 cache)
            again
            addr
            r)
        ≡ seen (answer_request_2 crate l first addr r)
  answered l cache first again addr (err e) s fresh = λ h. refl
  answered l cache first again addr (ok req) s fresh =
      elim (Bool-cases (leb 61 req.mtu && leb req.mtu l.maximum_mtu)) [
        | inr e ↦ rw e (λ h. absurd cc)
        | inl e ↦ rw (e, fresh) (slotted l cache first again addr req (try_reserve l) fresh e s)
      ]

  -- Where a second request made a session for an address that had none, the same request from the
  -- same address then changes nothing but the cache and is answered by the same datagram.
  pub request_2_again :
      (l : Listener) (first again : Turn) (addr : SocketAddr) (buf : List ℕ) (s : SessionSender)
      → session_of l addr ≡ none
      → session_of (on_request_2 crate l first addr buf).0 addr ≡ some s
      → seen (on_request_2 crate (on_request_2 crate l first addr buf).0 again addr buf)
        ≡ seen (on_request_2 crate l first addr buf)
  unfolding on_request_2
  request_2_again l first again addr buf s fresh h =
      let request = read_packet_connection_open_request_2 crate buf in
      let made = answer_request_2 crate (forgetting l addr) first addr request in
      answered (forgetting l addr) (forgetting made.0 addr).dispatch_cache first again addr request
        s fresh h
