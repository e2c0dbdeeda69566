-- ===== src/Server/SoundAdmit.antt =====
-- On the handshake of a listener: the versions that wait, and new sessions.
use rust_raknet.Prelude.{
  ℕ, ◌≤◌, ◌<◌, ◌≡◌, refl, sym, ap, ◌∙◌, subst, ◌⊎◌, inl, inr, Bool, true, false, none, some, List,
  [], ◌∷◌, length, length-append, arith, Bool-cases, if◌then◌else◌,
}
use rust_raknet.Prelude.Maps.{get, without, is_some}
use rust_raknet.Prelude.MapLaws.{get-put}
use rust_raknet.Datatype.Address.{SocketAddr}
use rust_raknet.Server.Address.{same_address, same_address-IsEquality}
use rust_raknet.Server.Links.{fresh_link, is_live}
use rust_raknet.Server.Cache.{CachedSession}
use rust_raknet.Server.Worker.{Listener, SessionSender, Waiting, admit, version_of}
use rust_raknet.Server.Receive.{session_of}
use rust_raknet.Server.Sound.{IsSound, IsSession, IsCached, some_eq}
use rust_raknet.Server.SoundParts.{assign_eq}

module _ {ℓ} {K : Type 0} {V : Type ℓ} (same : K → K → Bool) where
  pub length-without :
      (entries : List (K × V)) (k : K) → length (without same entries k) ≤ length entries
  length-without [] k = omega arith
  length-without ((j, v) ∷ entries) k =
      let rest = length-without entries k in
      elim (Bool-cases (same j k)) [
        | inl e ↦ rw e (omega (arith, rest))
        | inr e ↦ rw e (omega (arith, rest))
      ]

  -- A key that is there makes room for itself.
  pub length-without_lt :
      (entries : List (K × V)) (k : K)
      → is_some (get same entries k) ≡ true
      → length (without same entries k) < length entries
  length-without_lt [] k h = absurd cc
  length-without_lt ((j, v) ∷ entries) k h = elim (Bool-cases (same j k)) [
    | inl e ↦ let rest = length-without entries k in rw e (omega (arith, rest))
    | inr e ↦
        let there : is_some (get same entries k) ≡ true =
          ap (λ b. is_some (if b then some v else get same entries k)) (sym e) ∙ h in
        let rest = length-without_lt entries k there in rw e (omega (arith, rest))
  ]

pub pending-IsSound :
    (l : Listener) (entries : List (SocketAddr × (ℕ × ℕ)))
    → length entries ≤ 4096
    → IsSound l
    → IsSound (record l { pending_versions = entries })
pending-IsSound l entries h sound = record {
  sessions = sound.sessions;
  cached = sound.cached;
  versions = sound.versions;
  pending = h;
  waiting = sound.waiting;
}

-- The session that `admit` makes.
abbrev pub admitted : Listener → ℕ → ℕ → SessionSender
admitted l guid mtu = record { link = l.made; guid = guid; mtu = mtu }

pub session_of-admit :
    (l : Listener) (now : ℕ) (addr : SocketAddr) (guid mtu : ℕ) (a : SocketAddr)
    → ((same_address addr a ≡ true)
        × (session_of (admit l now addr guid mtu) a ≡ some (admitted l guid mtu)))
      ⊎ ((same_address addr a ≡ false)
          × (session_of (admit l now addr guid mtu) a ≡ session_of l a))
unfolding admit
session_of-admit l now addr guid mtu a =
    let e = get-put same_address same_address-IsEquality l.sessions addr a (admitted l guid mtu) in
    elim (Bool-cases (same_address addr a)) [
      | inl f ↦ inl (f, e ∙ ap (λ b. if b then some (admitted l guid mtu) else session_of l a) f)
      | inr f ↦ inr (f, e ∙ ap (λ b. if b then some (admitted l guid mtu) else session_of l a) f)
    ]

abbrev pub waiting_one : Listener → ℕ → SocketAddr → ℕ → Waiting
waiting_one l now addr mtu = record {
  peer_addr = addr;
  link = l.made;
  mtu = mtu;
  raknet_version = version_of l now addr;
}

pub admit-IsSound :
    (l : Listener) (now : ℕ) (addr : SocketAddr) (guid mtu : ℕ)
    → session_of l addr ≡ none
    → 61 ≤ mtu
    → mtu ≤ l.maximum_mtu
    → length l.backlog < l.backlog_size
    → IsSound l
    → IsSound (admit l now addr guid mtu)
unfolding admit
admit-IsSound l now addr guid mtu fresh low high room sound = record {
  sessions = sessions;
  cached = cached;
  versions = versions;
  pending = omega (arith, length-without same_address l.pending_versions addr, sound.pending);
  waiting = omega (arith, length-append l.backlog (waiting_one l now addr mtu ∷ []), room);
}
  where
    after : Listener
    after = admit l now addr guid mtu

    sessions :
        (a : SocketAddr) (s : SessionSender) → session_of after a ≡ some s → IsSession after s
    sessions a s h = elim (session_of-admit l now addr guid mtu a) [
      | inl (same, e) ↦ subst (IsSession after) (some_eq (sym e ∙ h)) (omega arith, low, high)
      | inr (other, e) ↦
          let (made, above, below) = sound.sessions a s (sym e ∙ h) in
          (omega (arith, made), above, below)
    ]

    cached : (i : ℕ) (c : CachedSession) → l.dispatch_cache i ≡ some c → IsCached after c
    cached i c h =
        let (made, known) = sound.cached i c h in
        (
          omega (arith, made),
          λ live. elim (assign_eq l.links l.made c.link fresh_link) [
            | inl (same, e) ↦ absurd (omega (arith, made, same))
            | inr (other, e) ↦
                let (s, here, eq) = known (ap is_live (sym e) ∙ live) in
                elim (session_of-admit l now addr guid mtu c.address) [
                  | inl (same, f) ↦
                      absurd (let g = same_address-IsEquality.sound addr c.address same in cc)
                  | inr (differs, f) ↦ (s, f ∙ here, eq)
                ]
          ],
        )

    versions :
        (a : SocketAddr)
        → is_some (session_of after a) ≡ is_some (get same_address after.version_map a)
    versions a =
        let here =
          get-put same_address same_address-IsEquality l.sessions addr a (admitted l guid mtu) in
        let there =
          get-put same_address same_address-IsEquality l.version_map addr a
            (version_of l now addr) in
        elim (Bool-cases (same_address addr a)) [
          | inl e ↦ rw (here, there, e) refl
          | inr e ↦ rw (here, there, e) (sound.versions a)
        ]
