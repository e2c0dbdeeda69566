-- ===== src/Sequence/Window.antt =====
-- The receive window of reliable frames against unbounded indices.
use rust_raknet.Prelude.{
  ℕ, zero, suc, ◌+◌, ◌%◌, ◌≤◌, ◌<◌, ◌≡◌, refl, sym, ◌∙◌, subst, ◌≢◌, inl, inr, Bool, true, false,
  List, [], ◌∷◌, length, ltb, ◌==◌, if◌then◌else◌, arith, Bool-cases, ==_iff,
}
use rust_raknet.Prelude.Sets.{contains, remove, contains-remove, length-remove-lt}
use rust_raknet.Sequence.{mask, half, receive_window, next, distance, ReliableWindow, drain}

-- The window `w` stands for the set `seen` of unbounded indices that have arrived: all below
-- `floor` have, none does from `floor + receive_window` on, and in between `pending` holds them
-- by their 24 low bits.
pub record Tracks (floor : ℕ) (seen : ℕ → Bool) (w : ReliableWindow) : Type 0 where
  pub next_lem : w.next ≡ floor % (mask + 1)
  pub below : (i : ℕ) → i < floor → seen i ≡ true
  pub inside :
      (i : ℕ)
      → floor ≤ i
      → i < floor + receive_window
      → seen i ≡ contains w.pending (i % (mask + 1))
  pub beyond : (i : ℕ) → floor + receive_window ≤ i → seen i ≡ false
  pub near :
      (p : ℕ) → contains w.pending p ≡ true → (p ≤ mask) × (distance p w.next < receive_window)

abbrev pub mark : ℕ → (ℕ → Bool) → ℕ → Bool
mark i seen j = if i == j then true else seen j

step-next : (floor n : ℕ) → n ≡ floor % (mask + 1) → next n ≡ (floor + 1) % (mask + 1)
unfolding next
step-next floor n h = omega arith

-- A value past the window is not pending.
not_near :
    (floor : ℕ) (seen : ℕ → Bool) (w : ReliableWindow) (i : ℕ)
    → Tracks floor seen w
    → floor + receive_window ≤ i
    → i < floor + half
    → contains w.pending (i % (mask + 1)) ≡ false
unfolding distance
not_near floor seen w i t lo hi = elim (Bool-cases (contains w.pending (i % (mask + 1)))) [
  | inl e ↦ absurd (omega (arith, t.near (i % (mask + 1)) e, t.next_lem))
  | inr e ↦ e
]

-- One step of `next`, to a set of pending values without the old one.
module _ (floor : ℕ) (seen seen' : ℕ → Bool) (w : ReliableWindow) (rest : List ℕ)
    (t : Tracks floor seen w)
    (without : (b : ℕ) → contains rest b ≡ (if w.next == b then false else contains w.pending b))
    (arrived : seen' floor ≡ true) (kept : (i : ℕ) → i ≢ floor → seen' i ≡ seen i) where
  without_other : (b : ℕ) → w.next ≢ b → contains rest b ≡ contains w.pending b
  without_other b h = ground (arith, without b)

  advance_inside :
      (i : ℕ)
      → floor + 1 ≤ i
      → i < floor + 1 + receive_window
      → seen' i ≡ contains rest (i % (mask + 1))
  advance_inside i lo hi =
      let other : w.next ≢ i % (mask + 1) = omega (arith, t.next_lem) in
      kept i (omega arith) ∙ elim (Bool-cases (ltb i (floor + receive_window))) [
        | inl e ↦
            t.inside i (omega arith) (ground arith) ∙ sym (without_other (i % (mask + 1)) other)
        | inr e ↦
            t.beyond i (ground arith)
            ∙ sym (
                without_other (i % (mask + 1)) other
                ∙ not_near floor seen w i t (ground arith) (omega arith))
      ]

  advance_near :
      (p : ℕ) → contains rest p ≡ true → (p ≤ mask) × (distance p (next w.next) < receive_window)
  unfolding distance next
  advance_near p h =
      let facts : (w.next ≢ p) × (contains w.pending p ≡ true) = ground (arith, without p) in
      let (other, old) = facts in
      let (small, close) = t.near p old in (small, omega (arith, t.next_lem))

  pub advance : Tracks (floor + 1) seen' (record { next = next w.next; pending = rest })
  advance = record {
    next_lem = step-next floor w.next t.next_lem;
    below = λ i h. elim (Bool-cases (i == floor)) [
      | inl e ↦ subst (λ j. seen' j ≡ true) (sym ((==_iff i floor).0 e)) arrived
      | inr e ↦ kept i (ground arith) ∙ t.below i (ground arith)
    ];
    inside = advance_inside;
    beyond = λ i h. kept i (omega arith) ∙ t.beyond i (omega arith);
    near = advance_near;
  }

-- The window with its `next` not pending: what holds between two calls.
abbrev pub Settled : ReliableWindow → Type 0
Settled w = contains w.pending w.next ≡ false

contains-nil : (xs : List ℕ) (a : ℕ) → length xs ≤ 0 → contains xs a ≡ false
unfolding contains
contains-nil [] a h = refl
contains-nil (x ∷ xs) a h = absurd (omega arith)

-- With fuel for each pending value, `drain` moves on to a value that is not pending.
pub drain-Tracks :
    (fuel floor n : ℕ) (seen : ℕ → Bool) (pending : List ℕ)
    → Tracks floor seen (record { next = n; pending = pending })
    → length pending ≤ fuel
    → (f : ℕ) × Tracks f seen (drain fuel n pending) × Settled (drain fuel n pending)
unfolding drain
drain-Tracks zero floor n seen pending t h = (floor, t, contains-nil pending n h)
drain-Tracks (suc fuel) floor n seen pending t h = elim (Bool-cases (contains pending n)) [
  | inl e ↦ rw e (
      drain-Tracks fuel (floor + 1) (next n) seen (remove pending n)
        (advance floor seen seen _ (remove pending n) t (contains-remove pending n) (here e)
          (λ i _. refl))
        (omega (arith, length-remove-lt pending n e)))
  | inr e ↦ rw e (floor, t, e)
]
  where
    here : contains pending n ≡ true → seen floor ≡ true
    here e =
        t.inside floor (omega arith) (omega arith)
        ∙ subst (λ v. contains pending v ≡ true) t.next_lem e
