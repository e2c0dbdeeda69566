-- ===== src/Server/Sound.antt =====
-- What holds of a listener of src/server.rs at any time, and the changes of one part that keep it.
use rust_raknet.Prelude.{
  ℕ, ◌≤◌, ◌<◌, ◌≡◌, refl, ap, ◌∙◌, inl, inr, true, false, none, some, length, Bool-cases,
  if◌then◌else◌,
}
use rust_raknet.Prelude.Maps.{get, is_some}
use rust_raknet.Prelude.MapLaws.{get-without}
use rust_raknet.Datatype.Address.{SocketAddr}
use rust_raknet.Server.Address.{same_address, same_address-IsEquality}
use rust_raknet.Server.Links.{is_live}
use rust_raknet.Server.Cache.{CachedSession}
use rust_raknet.Server.Worker.{Listener, SessionSender}
use rust_raknet.Server.Receive.{session_of, dropping}

-- A session has a link that was made, and a size that the listener allows.
abbrev pub IsSession : Listener → SessionSender → Type 0
IsSession l s = (s.link < l.made) × (61 ≤ s.mtu) × (s.mtu ≤ l.maximum_mtu)

-- A cached session has a link that was made; while the link is live, it is that of the peer.
abbrev pub IsCached : Listener → CachedSession → Type 0
IsCached l c =
    (c.link < l.made)
    × (is_live (l.links c.link) ≡ true
        → (s : SessionSender) × (session_of l c.address ≡ some s) × (s.link ≡ c.link))

pub record IsSound (l : Listener) : Type 0 where
  pub sessions : (a : SocketAddr) (s : SessionSender) → session_of l a ≡ some s → IsSession l s
  pub cached : (i : ℕ) (c : CachedSession) → l.dispatch_cache i ≡ some c → IsCached l c
  pub versions :
      (a : SocketAddr) → is_some (session_of l a) ≡ is_some (get same_address l.version_map a)
  pub pending : length l.pending_versions ≤ 4096
  pub waiting : length l.backlog ≤ l.backlog_size

pub some_eq : {A : Type 0} {a b : A} → some a ≡ some b → a ≡ b
some_eq h = cc

pub session_of-dropping :
    (l : Listener) (addr a : SocketAddr) {s : SessionSender}
    → session_of (dropping l addr) a ≡ some s
    → (same_address addr a ≡ false) × (session_of l a ≡ some s)
unfolding dropping
session_of-dropping l addr a {s} h =
    let e = get-without same_address same_address-IsEquality l.sessions addr a in
    elim (Bool-cases (same_address addr a)) [
      | inl same ↦ absurd (let g = ap (λ b. if b then none else session_of l a) same in cc)
      | inr other ↦ (other, let g = ap (λ b. if b then none else session_of l a) other in cc)
    ]

pub dropping-IsSound :
    (l : Listener) (addr : SocketAddr)
    → ((s : SessionSender) → session_of l addr ≡ some s → is_live (l.links s.link) ≡ false)
    → IsSound l
    → IsSound (dropping l addr)
unfolding dropping
dropping-IsSound l addr dead sound = record {
  sessions = λ a s h. sound.sessions a s (session_of-dropping l addr a h).1;
  cached = λ i c h. let (made, live) = sound.cached i c h in (made, kept c live);
  versions = versions;
  pending = sound.pending;
  waiting = sound.waiting;
}
  where
    kept :
        (c : CachedSession)
        → (is_live (l.links c.link) ≡ true
            → (s : SessionSender) × (session_of l c.address ≡ some s) × (s.link ≡ c.link))
        → is_live (l.links c.link) ≡ true
        → (s : SessionSender) × (session_of (dropping l addr) c.address ≡ some s)
          × (s.link ≡ c.link)
    kept c before live =
        let (s, e, same_link) = before live in
        elim (Bool-cases (same_address addr c.address)) [
          | inl same ↦
              let here : addr ≡ c.address = same_address-IsEquality.sound addr c.address same in
              let gone = dead s (ap (session_of l) here ∙ e) in
              let as_link = ap (λ i. is_live (l.links i)) same_link in absurd cc
          | inr other ↦ (
            s,
            get-without same_address same_address-IsEquality l.sessions addr c.address
                ∙ ap (λ b. if b then none else session_of l c.address) other
                ∙ e,
            same_link,
          )
        ]

    versions :
        (a : SocketAddr)
        → is_some (session_of (dropping l addr) a)
          ≡ is_some (get same_address (dropping l addr).version_map a)
    versions a =
        let here = get-without same_address same_address-IsEquality l.sessions addr a in
        let there = get-without same_address same_address-IsEquality l.version_map addr a in
        elim (Bool-cases (same_address addr a)) [
          | inl e ↦ rw (here, there, e) refl
          | inr e ↦ rw (here, there, e) (sound.versions a)
        ]
