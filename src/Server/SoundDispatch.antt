-- ===== src/Server/SoundDispatch.antt =====
-- On the dispatch of a datagram to its session.
use rust_raknet.Prelude.{
  ℕ, ◌≡◌, refl, sym, ap, ◌∙◌, ◌⊎◌, inl, inr, Bool, true, false, ◌&&◌, none, some, List, [], ◌∷◌,
  ◌++◌, length, arith, Bool-cases, Option-cases, if◌then◌else◌, ltb, ◌==◌, ==_refl, subst,
}
use rust_raknet.Datatype.Address.{SocketAddr}
use rust_raknet.Server.Address.{same_address, same_address-IsEquality}
use rust_raknet.Server.Links.{
  Link, Links, accepted, full, no_receiver, capacity, assign, is_live, try_send, close_link,
}
use rust_raknet.Server.Cache.{CachedSession, SessionDispatchCache, sender, usable, slot}
use rust_raknet.Server.Worker.{Listener, SessionSender}
use rust_raknet.Server.Receive.{
  session_of, forgetting, remembering, with_link, send_on, dispatch, through_sessions,
  on_disconnect,
}
use rust_raknet.Server.Sound.{IsSound, some_eq, dropping-IsSound}
use rust_raknet.Server.SoundParts.{
  assign_eq, links-IsSound, forgetting-IsSound, remembering-IsSound, with_link-IsSound,
}

pub try_send_cases :
    (link : Link) (datagram : List ℕ)
    → (try_send link datagram ≡ (accepted, record link { inbox = link.inbox ++ (datagram ∷ []) }))
      ⊎ ((try_send link datagram ≡ (full, link))
          ⊎ ((try_send link datagram ≡ (no_receiver, link)) × (link.receiving ≡ false)))
unfolding try_send
try_send_cases link datagram = elim (Bool-cases link.receiving) [
  | inl e ↦ elim (Bool-cases (ltb (length link.inbox) capacity)) [
    | inl f ↦ inl (rw (e, f) refl)
    | inr f ↦ inr (inl (rw (e, f) refl))
  ]
  | inr e ↦ inr (inr (rw e refl, e))
]

dead-is_live : (link : Link) → link.receiving ≡ false → is_live link ≡ false
unfolding is_live
dead-is_live link h = ground (arith, h)

pub assign_here {ℓ} : {A : Type ℓ} (table : ℕ → A) (i : ℕ) (a : A) → assign table i a i ≡ a
unfolding assign
assign_here table i a = rw same refl
  where
    same : (i == i) ≡ true
    same = ==_refl i

pub send_on-IsSound :
    (l : Listener) (addr : SocketAddr) (s : SessionSender) (datagram : List ℕ)
    → session_of l addr ≡ some s
    → IsSound l
    → IsSound (send_on l addr s.link datagram)
unfolding is_live
send_on-IsSound l addr s datagram here sound = elim (try_send_cases (l.links s.link) datagram) [
  | inl e ↦ rw e (
      with_link-IsSound l s.link
        (record (l.links s.link) { inbox = (l.links s.link).inbox ++ (datagram ∷ []) }) (λ h. h)
        sound)
  | inr (inl e) ↦ rw e same
  | inr (inr (e, gone)) ↦ rw e (
      dropping-IsSound (forgetting (with_link l s.link (l.links s.link)) addr) addr
        (λ t h.
          let eq = some_eq (sym h ∙ here) in
          ap (λ u. is_live (assign l.links s.link (l.links s.link) u.link)) eq
          ∙ ap is_live (assign_here l.links s.link (l.links s.link))
          ∙ dead-is_live (l.links s.link) gone)
        (forgetting-IsSound (with_link l s.link (l.links s.link)) addr same))
]
  where
    same : IsSound (with_link l s.link (l.links s.link))
    same = with_link-IsSound l s.link (l.links s.link) (λ h. h) sound

-- What a hit of the cache tells.
pub sender_lem :
    (cache : SessionDispatchCache) (links : Links) (addr : SocketAddr) (link : ℕ)
    → sender cache links addr ≡ some link
    → (c : CachedSession) × (cache (slot addr) ≡ some c)
      × (c.address ≡ addr)
      × (c.link ≡ link)
      × (is_live (links link) ≡ true)
unfolding sender
sender_lem cache links addr link h = elim (Option-cases (cache (slot addr))) [
  | inl e ↦ absurd (let g = ap (usable links addr) e in cc)
  | inr (c, e) ↦
      let hit : usable links addr (some c) ≡ some link = ap (usable links addr) (sym e) ∙ h in
      elim (Bool-cases (same_address c.address addr && is_live (links c.link))) [
        | inl f ↦
            let g = ap (λ b. if b then some c.link else none) f in
            let both = both_true (same_address c.address addr) (is_live (links c.link)) f in
            let eq : c.link ≡ link = some_eq (sym g ∙ hit) in
            (
              c,
              e,
              same_address-IsEquality.sound c.address addr both.0,
              eq,
              ap (λ i. is_live (links i)) (sym eq) ∙ both.1,
            )
        | inr f ↦ absurd (let g = ap (λ b. if b then some c.link else none) f in cc)
      ]
]
  where
    both_true : (a b : Bool) → (a && b) ≡ true → (a ≡ true) × (b ≡ true)
    both_true a b h = ground arith

-- A hit of the cache is the session of the peer.
pub sender-session_of :
    (l : Listener) (addr : SocketAddr) (link : ℕ)
    → IsSound l
    → sender l.dispatch_cache l.links addr ≡ some link
    → (s : SessionSender) × (session_of l addr ≡ some s) × (s.link ≡ link)
sender-session_of l addr link sound h =
    let (c, e, address, same, live) = sender_lem l.dispatch_cache l.links addr link h in
    let (made, known) = sound.cached (slot addr) c e in
    let (s, here, eq) = known (ap (λ i. is_live (l.links i)) same ∙ live) in
    (s, ap (session_of l) (sym address) ∙ here, eq ∙ same)

through_sessions-IsSound :
    (l : Listener) (addr : SocketAddr) (datagram : List ℕ)
    → IsSound l
    → IsSound (through_sessions l addr datagram (session_of l addr))
through_sessions-IsSound l addr datagram sound = elim (Option-cases (session_of l addr)) [
  | inl e ↦ rw e sound
  | inr (s, e) ↦ rw e (
      send_on-IsSound (remembering l addr s.link) addr s datagram e
        (remembering-IsSound l addr s e sound))
]

pub dispatch-IsSound :
    (l : Listener) (addr : SocketAddr) (datagram : List ℕ)
    → IsSound l
    → IsSound (dispatch l addr datagram)
unfolding dispatch
dispatch-IsSound l addr datagram sound =
    elim (Option-cases (sender l.dispatch_cache l.links addr)) [
      | inl e ↦ rw e (
          through_sessions-IsSound (forgetting l addr) addr datagram
            (forgetting-IsSound l addr sound))
      | inr (link, e) ↦
          let (s, here, eq) = sender-session_of l addr link sound e in
          rw e (
            subst (λ i. IsSound (send_on l addr i datagram)) eq
              (send_on-IsSound l addr s datagram here sound))
    ]

closed-is_live : (links : Links) (i : ℕ) → is_live (close_link links i i) ≡ false
unfolding close_link is_live
closed-is_live links i = rw (assign_here links i (record (links i) { closed = true })) refl

pub close_link-is_live :
    (links : Links) (i j : ℕ) → is_live (close_link links i j) ≡ true → is_live (links j) ≡ true
unfolding close_link is_live
close_link-is_live links i j h = elim (assign_eq links i j (record (links i) { closed = true })) [
  | inl (same, e) ↦ absurd (let g = ap is_live e in cc)
  | inr (other, e) ↦ ap is_live (sym e) ∙ h
]

pub on_disconnect-IsSound :
    (l : Listener) (addr : SocketAddr) → IsSound l → IsSound (on_disconnect l addr)
unfolding on_disconnect
on_disconnect-IsSound l addr sound = elim (Option-cases (session_of l addr)) [
  | inl e ↦ rw e (forgetting-IsSound l addr sound)
  | inr (s, e) ↦ rw e (
      dropping-IsSound (record (forgetting l addr) { links = close_link l.links s.link }) addr
        (λ t h.
          ap (λ u. is_live (close_link l.links s.link u.link)) (some_eq (sym h ∙ e))
          ∙ closed-is_live l.links s.link)
        (links-IsSound (forgetting l addr) (close_link l.links s.link)
          (close_link-is_live l.links s.link) (forgetting-IsSound l addr sound)))
]
