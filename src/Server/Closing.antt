-- ===== src/Server/Closing.antt =====
-- On the session collector and the end of a listener.
use rust_raknet.Prelude.{
  ℕ, ◌≡◌, refl, sym, ap, ◌∙◌, subst, inl, inr, true, false, Option, none, some, List, [], ◌∷◌,
  Bool-cases, Option-cases, if◌then◌else◌,
}
use rust_raknet.Prelude.Maps.{get}
use rust_raknet.Prelude.MapLaws.{get-without}
use rust_raknet.Datatype.Address.{SocketAddr}
use rust_raknet.Server.Address.{same_address, same_address-IsEquality}
use rust_raknet.Server.Links.{Links, close_link}
use rust_raknet.Server.Worker.{Listener, SessionSender}
use rust_raknet.Server.Receive.{session_of, dropping}
use rust_raknet.Server.Upkeep.{
  collect, unless_empty, close_links, close_sessions, late_session, collect_rest, shut_down,
}
use rust_raknet.Server.Sound.{some_eq}
use rust_raknet.Server.SoundParts.{assign_eq}
use rust_raknet.Server.SoundDispatch.{assign_here}

-- A message to the session collector, of whatever address, leaves every session whose semaphore is
-- not closed.
pub collect-session_of :
    (l : Listener) (addr a : SocketAddr) (s : SessionSender)
    → session_of l a ≡ some s
    → (l.links s.link).closed ≡ false
    → session_of (collect l addr).0 a ≡ some s
unfolding collect dropping
collect-session_of l addr a s here ready = elim (Option-cases (session_of l addr)) [
  | inl e ↦ rw e here
  | inr (t, e) ↦ elim (Bool-cases (l.links t.link).closed) [
    | inr f ↦ rw (e, f) here
    | inl f ↦
        rw (e, f)
          (get-without same_address same_address-IsEquality l.sessions addr a
            ∙ elim (Bool-cases (same_address addr a)) [
              | inl g ↦
                  let same : addr ≡ a = same_address-IsEquality.sound addr a g in
                  let eq : t ≡ s = some_eq (sym e ∙ ap (session_of l) same ∙ here) in
                  absurd (let c = ap (λ u. (l.links u.link).closed) eq in cc)
              | inr g ↦ rw g here
            ])
  ]
]

close_link-closed :
    (links : Links) (i j : ℕ) → (links j).closed ≡ true → (close_link links i j).closed ≡ true
unfolding close_link
close_link-closed links i j h = elim (assign_eq links i j (record (links i) { closed = true })) [
  | inl (same, e) ↦ rw e refl
  | inr (other, e) ↦ rw e h
]

close_links_stay :
    (links : Links) (entries : List (SocketAddr × SessionSender)) (j : ℕ)
    → (links j).closed ≡ true
    → (close_links links entries j).closed ≡ true
unfolding close_links
close_links_stay links [] j h = h
close_links_stay links ((addr, s) ∷ entries) j h =
    close_links_stay (close_link links s.link) entries j (close_link-closed links s.link j h)

close_links_all :
    (links : Links) (entries : List (SocketAddr × SessionSender)) (a : SocketAddr)
    (s : SessionSender)
    → get same_address entries a ≡ some s
    → (close_links links entries s.link).closed ≡ true
unfolding close_links close_link
close_links_all links [] a s h = absurd cc
close_links_all links ((addr, t) ∷ entries) a s h = elim (Bool-cases (same_address addr a)) [
  | inl e ↦
      let eq : t ≡ s =
        some_eq (sym (ap (λ b. if b then some t else get same_address entries a) e) ∙ h) in
      close_links_stay (close_link links t.link) entries s.link (
        subst (λ u. (close_link links t.link u.link).closed ≡ true) eq
          (ap (λ k. k.closed) (assign_here links t.link (record (links t.link) { closed = true }))))
  | inr e ↦
      close_links_all (close_link links t.link) entries a s
        (sym (ap (λ b. if b then some t else get same_address entries a) e) ∙ h)
]

late_session-links :
    (l : Listener) (addr : SocketAddr) (s : Option SessionSender)
    → (late_session l addr s).0.links ≡ l.links
unfolding dropping
late_session-links l addr none = refl
late_session-links l addr (some s) = refl

unless_empty-links :
    (l rest : Listener) (entries : List (SocketAddr × SessionSender))
    → rest.links ≡ l.links
    → (unless_empty l rest entries).links ≡ l.links
unless_empty-links l rest [] h = refl
unless_empty-links l rest (entry ∷ entries) h = h

collect_rest-links :
    (l : Listener) (messages : List SocketAddr) → (collect_rest l messages).links ≡ l.links
unfolding collect_rest
collect_rest-links l [] = refl
collect_rest-links l (addr ∷ messages) = unless_empty-links l _ l.sessions (
    collect_rest-links (late_session l addr (session_of l addr)).0 messages
    ∙ late_session-links l addr (session_of l addr))

-- Whatever messages still come to the collector, a listener that shuts down ends without sessions
-- and versions, and the semaphore of every session that it had is closed.
pub shut_down_lem :
    (l : Listener) (messages : List SocketAddr) (a : SocketAddr)
    → (session_of (shut_down l messages) a ≡ none)
      × (get same_address (shut_down l messages).version_map a ≡ none)
      × ((s : SessionSender)
          → session_of l a ≡ some s
          → ((shut_down l messages).links s.link).closed ≡ true)
unfolding shut_down close_sessions
shut_down_lem l messages a = (
  refl,
  refl,
  λ s h.
      ap (λ links. (links s.link).closed) (collect_rest-links (close_sessions l).0 messages)
      ∙ close_links_all l.links l.sessions a s h,
)
