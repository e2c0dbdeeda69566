-- ===== src/Server/SoundParts.antt =====
-- On the changes of the cache and of the links of a listener.
use rust_raknet.Prelude.{
  ℕ, ◌≡◌, refl, sym, ap, ◌∙◌, subst, ◌⊎◌, inl, inr, true, false, Option, none, some, arith,
  Bool-cases, if◌then◌else◌, ◌==◌,
}
use rust_raknet.Datatype.Address.{SocketAddr}
use rust_raknet.Server.Address.{same_address}
use rust_raknet.Server.Links.{Link, Links, assign, is_live}
use rust_raknet.Server.Cache.{
  CachedSession, SessionDispatchCache, remember, forget, slot, prune, unless_at, if_live,
}
use rust_raknet.Server.Worker.{Listener, SessionSender}
use rust_raknet.Server.Receive.{session_of, forgetting, remembering, with_link}
use rust_raknet.Server.Sound.{IsSound, IsCached, some_eq}

pub cache-IsSound :
    (l : Listener) (cache : SessionDispatchCache)
    → ((i : ℕ) (c : CachedSession) → cache i ≡ some c → IsCached l c)
    → IsSound l
    → IsSound (record l { dispatch_cache = cache })
cache-IsSound l cache cached sound = record {
  sessions = sound.sessions;
  cached = cached;
  versions = sound.versions;
  pending = sound.pending;
  waiting = sound.waiting;
}

-- No link comes to life.
pub links-IsSound :
    (l : Listener) (links : Links)
    → ((i : ℕ) → is_live (links i) ≡ true → is_live (l.links i) ≡ true)
    → IsSound l
    → IsSound (record l { links = links })
links-IsSound l links alive sound = record {
  sessions = sound.sessions;
  cached = λ i c h.
      let (made, before) = sound.cached i c h in (made, λ live. before (alive c.link live));
  versions = sound.versions;
  pending = sound.pending;
  waiting = sound.waiting;
}

pub assign_eq {ℓ} :
    {A : Type ℓ} (table : ℕ → A) (i j : ℕ) (a : A)
    → ((i ≡ j) × (assign table i a j ≡ a)) ⊎ (((i == j) ≡ false) × (assign table i a j ≡ table j))
unfolding assign
assign_eq table i j a = elim (Bool-cases (i == j)) [
  | inl e ↦ inl (ground (arith, e), rw e refl)
  | inr e ↦ inr (e, rw e refl)
]

unless_at_eq :
    (addr : SocketAddr) (entry : Option CachedSession) {c : CachedSession}
    → unless_at addr entry ≡ some c
    → entry ≡ some c
unless_at_eq addr none h = h
unless_at_eq addr (some entry) h = elim (Bool-cases (same_address entry.address addr)) [
  | inl e ↦ absurd (let g = ap (λ b. if b then none else some entry) e in cc)
  | inr e ↦ let g = ap (λ b. if b then none else some entry) e in cc
]

if_live_eq :
    (links : Links) (entry : Option CachedSession) {c : CachedSession}
    → if_live links entry ≡ some c
    → entry ≡ some c
if_live_eq links none h = h
if_live_eq links (some entry) h = elim (Bool-cases (is_live (links entry.link))) [
  | inl e ↦ let g = ap (λ b. if b then some entry else none) e in cc
  | inr e ↦ absurd (let g = ap (λ b. if b then some entry else none) e in cc)
]

pub forget_eq :
    (cache : SessionDispatchCache) (addr : SocketAddr) (i : ℕ) {c : CachedSession}
    → forget cache addr i ≡ some c
    → cache i ≡ some c
unfolding forget
forget_eq cache addr i h =
    elim (assign_eq cache (slot addr) i (unless_at addr (cache (slot addr)))) [
      | inl (same, e) ↦ ap cache (sym same) ∙ unless_at_eq addr (cache (slot addr)) (sym e ∙ h)
      | inr (other, e) ↦ sym e ∙ h
    ]

pub forgetting-IsSound :
    (l : Listener) (addr : SocketAddr) → IsSound l → IsSound (forgetting l addr)
forgetting-IsSound l addr sound =
    cache-IsSound l (forget l.dispatch_cache addr)
      (λ i c h. sound.cached i c (forget_eq l.dispatch_cache addr i h)) sound

pub prune-IsSound :
    (l : Listener)
    → IsSound l
    → IsSound (record l { dispatch_cache = prune l.dispatch_cache l.links })
unfolding prune
prune-IsSound l sound =
    cache-IsSound l (prune l.dispatch_cache l.links)
      (λ i c h. sound.cached i c (if_live_eq l.links (l.dispatch_cache i) h)) sound

abbrev cached_entry : SocketAddr → ℕ → CachedSession
cached_entry addr link = record { address = addr; link = link }

pub remembering-IsSound :
    (l : Listener) (addr : SocketAddr) (s : SessionSender)
    → session_of l addr ≡ some s
    → IsSound l
    → IsSound (remembering l addr s.link)
unfolding remember
remembering-IsSound l addr s here sound =
    cache-IsSound l (remember l.dispatch_cache addr s.link) cached sound
  where
    new : IsCached l (cached_entry addr s.link)
    new = ((sound.sessions addr s here).0, λ live. (s, here, refl))

    cached :
        (i : ℕ) (c : CachedSession)
        → remember l.dispatch_cache addr s.link i ≡ some c
        → IsCached l c
    cached i c h =
        elim (assign_eq l.dispatch_cache (slot addr) i (some (cached_entry addr s.link))) [
          | inl (same, e) ↦ subst (IsCached l) (some_eq (sym e ∙ h)) new
          | inr (other, e) ↦ sound.cached i c (sym e ∙ h)
        ]

-- A link whose liveness is that of `link`, in its place.
pub with_link-IsSound :
    (l : Listener) (i : ℕ) (link : Link)
    → (is_live link ≡ true → is_live (l.links i) ≡ true)
    → IsSound l
    → IsSound (with_link l i link)
with_link-IsSound l i link alive sound = links-IsSound l (assign l.links i link) kept sound
  where
    kept : (j : ℕ) → is_live (assign l.links i link j) ≡ true → is_live (l.links j) ≡ true
    kept j h = elim (assign_eq l.links i j link) [
      | inl (same, e) ↦ ap (λ k. is_live (l.links k)) (sym same) ∙ alive (ap is_live (sym e) ∙ h)
      | inr (other, e) ↦ ap is_live (sym e) ∙ h
    ]
