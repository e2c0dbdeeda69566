-- ===== src/Server/SoundRequests.antt =====
-- On the two requests that a listener answers before it has a session.
use rust_raknet.Prelude.{
  ℕ, ◌≤◌, ◌<◌, ◌≡◌, refl, inl, inr, Bool, true, false, not, ◌&&◌, none, List, length, arith,
  Bool-cases, Option-cases, leb,
}
use rust_raknet.Prelude.Maps.{get, put, is_some}
use rust_raknet.Prelude.Sets.{contains}
use rust_raknet.Error.{Result, ok, err}
use rust_raknet.Bytes.{BytesCrate}
use rust_raknet.Datatype.Address.{SocketAddr}
use rust_raknet.Packet.OpenConnection.{
  OpenConnectionRequest1, OpenConnectionRequest2, read_packet_connection_open_request_1,
  read_packet_connection_open_request_2,
}
use rust_raknet.Settings.{raknet_protocol_version_list}
use rust_raknet.Server.Address.{same_address}
use rust_raknet.Server.Worker.{
  Listener, Turn, Reserved, reserved, backlog_full, no_listener, try_reserve,
}
use rust_raknet.Server.Receive.{
  session_of, forgetting, on_request_1, answer_request_1, on_request_2, answer_request_2, with_slot,
  acknowledge, reply_2,
}
use rust_raknet.Server.Sound.{IsSound}
use rust_raknet.Server.SoundParts.{forgetting-IsSound}
use rust_raknet.Server.SoundAdmit.{
  length-without, length-without_lt, pending-IsSound, admit-IsSound,
}

put_pending :
    {V : Type 0} (entries : List (SocketAddr × V)) (addr : SocketAddr) (v : V)
    → length entries ≤ 4096
    → (leb 4096 (length entries) && not (is_some (get same_address entries addr))) ≡ false
    → length (put same_address entries addr v) ≤ 4096
put_pending entries addr v small h = elim (Bool-cases (is_some (get same_address entries addr))) [
  | inl e ↦ omega (arith, small, length-without_lt same_address entries addr e)
  | inr e ↦
      let less = not_full (length entries) (is_some (get same_address entries addr)) e h in
      omega (arith, less, length-without same_address entries addr)
]
  where
    not_full : (n : ℕ) (b : Bool) → b ≡ false → (leb 4096 n && not b) ≡ false → n < 4096
    not_full n b e h = ground arith

module _ (crate : BytesCrate) where
  answer_request_1-IsSound :
      (l : Listener) (turn : Turn) (addr : SocketAddr) (r : Result OpenConnectionRequest1)
      → IsSound l
      → IsSound (answer_request_1 crate l turn addr r).0
  answer_request_1-IsSound l turn addr (err e) sound = sound
  answer_request_1-IsSound l turn addr (ok req) sound =
      elim (Bool-cases (contains raknet_protocol_version_list req.protocol_version)) [
        | inr e ↦ rw e sound
        | inl e ↦
            elim (Bool-cases (
              leb 4096 (length l.pending_versions)
              && not (is_some (get same_address l.pending_versions addr)))) [
                | inl f ↦ rw (e, f) sound
                | inr f ↦
                    rw (e, f)
                      (pending-IsSound l
                        (put same_address l.pending_versions addr (req.protocol_version, turn.now))
                        (put_pending l.pending_versions addr (req.protocol_version, turn.now)
                          sound.pending f)
                        sound)
              ]
      ]

  pub on_request_1-IsSound :
      (l : Listener) (turn : Turn) (addr : SocketAddr) (buf : List ℕ)
      → IsSound l
      → IsSound (on_request_1 crate l turn addr buf).0
  unfolding on_request_1
  on_request_1-IsSound l turn addr buf =
      answer_request_1-IsSound l turn addr (read_packet_connection_open_request_1 crate buf)

  reserved_room : (l : Listener) → try_reserve l ≡ reserved → length l.backlog < l.backlog_size
  unfolding try_reserve
  reserved_room l h = ground arith

  acknowledge-IsSound :
      (l : Listener) (turn : Turn) (addr : SocketAddr) (req : OpenConnectionRequest2)
      (reply : Result (List ℕ))
      → session_of l addr ≡ none
      → 61 ≤ req.mtu
      → req.mtu ≤ l.maximum_mtu
      → length l.backlog < l.backlog_size
      → IsSound l
      → IsSound (acknowledge crate l turn addr req reply).0
  acknowledge-IsSound l turn addr req (err e) fresh low high room sound = sound
  acknowledge-IsSound l turn addr req (ok bytes) fresh low high room sound =
      elim (Bool-cases turn.sends) [
        | inl e ↦ rw e (admit-IsSound l turn.now addr req.guid req.mtu fresh low high room sound)
        | inr e ↦ rw e sound
      ]

  stopped-IsSound : (l : Listener) → IsSound l → IsSound (record l { running = false })
  stopped-IsSound l sound = record {
    sessions = sound.sessions;
    cached = sound.cached;
    versions = sound.versions;
    pending = sound.pending;
    waiting = sound.waiting;
  }

  with_slot-IsSound :
      (l : Listener) (turn : Turn) (addr : SocketAddr) (req : OpenConnectionRequest2) (r : Reserved)
      → try_reserve l ≡ r
      → session_of l addr ≡ none
      → 61 ≤ req.mtu
      → req.mtu ≤ l.maximum_mtu
      → IsSound l
      → IsSound (with_slot crate l turn addr req r).0
  with_slot-IsSound l turn addr req reserved e fresh low high sound =
      acknowledge-IsSound l turn addr req (reply_2 crate l addr req.mtu) fresh low high
        (reserved_room l e) sound
  with_slot-IsSound l turn addr req backlog_full e fresh low high sound = sound
  with_slot-IsSound l turn addr req no_listener e fresh low high sound = stopped-IsSound l sound

  answer_request_2-IsSound :
      (l : Listener) (turn : Turn) (addr : SocketAddr) (r : Result OpenConnectionRequest2)
      → IsSound l
      → IsSound (answer_request_2 crate l turn addr r).0
  answer_request_2-IsSound l turn addr (err e) sound = sound
  answer_request_2-IsSound l turn addr (ok req) sound =
      elim (Bool-cases (leb 61 req.mtu && leb req.mtu l.maximum_mtu)) [
        | inr e ↦ rw e sound
        | inl e ↦
            let (low, high) = both req.mtu l.maximum_mtu e in
            elim (Option-cases (session_of l addr)) [
              | inl f ↦
                  rw (e, f)
                    (with_slot-IsSound l turn addr req (try_reserve l) refl f low high sound)
              | inr (s, f) ↦ rw (e, f) sound
            ]
      ]
    where
      both : (m n : ℕ) → (leb 61 m && leb m n) ≡ true → (61 ≤ m) × (m ≤ n)
      both m n h = (ground arith, ground arith)

  pub on_request_2-IsSound :
      (l : Listener) (turn : Turn) (addr : SocketAddr) (buf : List ℕ)
      → IsSound l
      → IsSound (on_request_2 crate l turn addr buf).0
  unfolding on_request_2
  on_request_2-IsSound l turn addr buf sound =
      answer_request_2-IsSound (forgetting l addr) turn addr
        (read_packet_connection_open_request_2 crate buf) (forgetting-IsSound l addr sound)
