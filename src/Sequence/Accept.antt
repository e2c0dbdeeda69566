-- ===== src/Sequence/Accept.antt =====
-- `ReliableWindow::accept` against unbounded indices: the first arrival of each is accepted, once.
use rust_raknet.Prelude.{
  ℕ, ◌+◌, ◌-◌, ◌%◌, ◌≤◌, ◌<◌, ◌≡◌, refl, ◌∙◌, subst, ◌≢◌, ◌⊎◌, inl, inr, Bool, true, false, ◌∷◌,
  length, leb, ◌==◌, if◌then◌else◌, arith, Bool-cases,
}
use rust_raknet.Prelude.Sets.{contains, insert}
use rust_raknet.Error.{packet_parse_error, Result, ok, err}
use rust_raknet.Sequence.{
  mask, half, receive_window, next, distance, ReliableWindow, ReliableWindow_default, drain, accept,
}
use rust_raknet.Sequence.Window.{Tracks, mark, Settled, advance, drain-Tracks}

compare_cases : (a b : ℕ) → (a < b) ⊎ (a ≡ b) ⊎ (b < a)
compare_cases a b = ground arith

le_cases : (a b : ℕ) → (a ≤ b) ⊎ (b < a)
le_cases a b = ground arith

pub default-Tracks : Tracks 0 (λ i. false) ReliableWindow_default
unfolding contains
default-Tracks = record {
  next_lem = refl;
  below = λ i h. absurd (omega arith);
  inside = λ i lo hi. refl;
  beyond = λ i h. refl;
  near = λ p h. cc;
}

-- What a call with the index `i` does, seen on unbounded indices.
abbrev pub Verdict : ℕ → (ℕ → Bool) → ReliableWindow → ℕ → Result Bool × ReliableWindow → Type 0
Verdict floor seen w i (r, w') =
    ((floor + receive_window ≤ i) × (r ≡ err packet_parse_error) × (w' ≡ w))
    ⊎ ((i < floor + receive_window) × (seen i ≡ true) × (r ≡ ok false) × (w' ≡ w))
    ⊎ ((i < floor + receive_window)
        × (seen i ≡ false)
        × (r ≡ ok true)
        × ((f : ℕ) × Tracks f (mark i seen) w' × Settled w'))

module _ (floor i : ℕ) (seen : ℕ → Bool) (w : ReliableWindow) (t : Tracks floor seen w)
    (s : Settled w) (not_behind : floor ≤ i + half) (not_ahead : i < floor + half) where
  behind : i < floor → leb half (distance (i % (mask + 1)) w.next) ≡ true
  unfolding distance
  behind h = ground (arith, t.next_lem)

  delta-ahead : floor ≤ i → distance (i % (mask + 1)) w.next ≡ i - floor
  unfolding distance
  delta-ahead h = omega (arith, t.next_lem)

  marked_other : (j : ℕ) → j ≢ i → mark i seen j ≡ seen j
  marked_other j h = ground arith

  -- The index joins the pending ones.
  insert-Tracks :
      floor < i
      → i < floor + receive_window
      → Tracks floor (mark i seen) (record w { pending = i % (mask + 1) ∷ w.pending })
  unfolding contains distance
  insert-Tracks lo hi = record {
    next_lem = t.next_lem;
    below = λ j h. ground (arith, t.below j h);
    inside = λ j a b. ground (arith, t.inside j a b);
    beyond = λ j h. ground (arith, t.beyond j h);
    near = λ p h. ground (arith, t.near p, t.next_lem);
  }

  accept_held :
      floor < i
      → i < floor + receive_window
      → contains w.pending (i % (mask + 1)) ≡ true
      → accept w (i % (mask + 1)) ≡ (ok false, w)
  unfolding accept insert
  accept_held lo hi e = ground (arith, delta-ahead)

  accept_fresh :
      floor < i
      → i < floor + receive_window
      → contains w.pending (i % (mask + 1)) ≡ false
      → accept w (i % (mask + 1)) ≡ (ok true, record w { pending = i % (mask + 1) ∷ w.pending })
  unfolding accept insert
  accept_fresh lo hi e = ground (arith, delta-ahead)

  accept_behind : i < floor → accept w (i % (mask + 1)) ≡ (ok false, w)
  unfolding accept
  accept_behind h = ground (arith, behind h)

  accept_far : floor + receive_window ≤ i → accept w (i % (mask + 1)) ≡ (err packet_parse_error, w)
  unfolding accept
  accept_far h = ground (arith, delta-ahead)

  accept_next :
      i ≡ floor
      → accept w (i % (mask + 1)) ≡ (ok true, drain (length w.pending) (next w.next) w.pending)
  unfolding accept
  accept_next h = ground (arith, delta-ahead)

  insert-Settled :
      floor < i
      → i < floor + receive_window
      → Settled (record w { pending = i % (mask + 1) ∷ w.pending })
  unfolding contains
  insert-Settled lo hi = ground (arith, t.next_lem)

  without_next :
      (b : ℕ) → contains w.pending b ≡ (if w.next == b then false else contains w.pending b)
  without_next b = ground (arith, s)

  accept_next-Verdict : i ≡ floor → Verdict floor seen w i (accept w (i % (mask + 1)))
  accept_next-Verdict h = rw (accept_next h) (
      inr (
        inr (
          omega arith,
          t.inside i (omega arith) (omega arith)
              ∙ subst (λ v. contains w.pending v ≡ false) (t.next_lem ∙ here) s,
          refl,
          drain-Tracks (length w.pending) (floor + 1) (next w.next) (mark i seen) w.pending
              (advance floor seen (mark i seen) w w.pending t without_next (ground arith)
                (λ j other. marked_other j (omega arith)))
              (omega arith),
        )))
    where
      here : floor % (mask + 1) ≡ i % (mask + 1)
      here = omega arith

  accept_ahead-Verdict :
      floor < i → i < floor + receive_window → Verdict floor seen w i (accept w (i % (mask + 1)))
  accept_ahead-Verdict lo hi = elim (Bool-cases (contains w.pending (i % (mask + 1)))) [
    | inl e ↦ rw (accept_held lo hi e) (inr (inl (hi, t.inside i (omega arith) hi ∙ e, refl, refl)))
    | inr e ↦ rw (accept_fresh lo hi e) (
        inr (
          inr (
            hi,
            t.inside i (omega arith) hi ∙ e,
            refl,
            (floor, insert-Tracks lo hi, insert-Settled lo hi),
          )))
  ]

  -- For a window that stands for the set of unbounded indices that have arrived, an index within
  -- half the 24-bit circle of the floor is refused with an error from 65536 indices ahead on, and
  -- otherwise accepted exactly if it has not arrived before; an accepted index is added to the set
  -- and the floor moves past all that have arrived, and a refused one leaves the window as it was.
  pub accept-Verdict : Verdict floor seen w i (accept w (i % (mask + 1)))
  accept-Verdict = elim (compare_cases i floor) [
    | inl h ↦ rw (accept_behind h) (inr (inl (omega arith, t.below i h, refl, refl)))
    | inr (inl h) ↦ accept_next-Verdict h
    | inr (inr h) ↦ elim (le_cases (floor + receive_window) i) [
      | inl far ↦ rw (accept_far far) (inl (far, refl, refl))
      | inr close ↦ accept_ahead-Verdict h close
    ]
  ]
