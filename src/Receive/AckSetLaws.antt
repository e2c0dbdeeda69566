-- ===== src/Receive/AckSetLaws.antt =====
-- Which numbers an `AckSet` acknowledges and misses.
use rust_raknet.Prelude.{
  ℕ, ◌+◌, ◌≤◌, ◌≡◌, refl, ap, ◌∙◌, ◌⊎◌, inl, inr, Bool, true, false, ◌&&◌, ◌||◌, Option, none, some,
  List, [], ◌∷◌, ◌++◌, All, ltb, ◌==◌, if◌then◌else◌, arith, Bool-cases, ==_iff,
}
use rust_raknet.Sequence.{mask, newer, distance}
use rust_raknet.Packet.Records.{Range}
use rust_raknet.Packet.RecordsInput.{IsForward}
use rust_raknet.Receive.AckSet.{inside, hole, later_of, retain, pushed, missed, joined, insert_ack}

abbrev pub one : Bool → ℕ
one true = 1
one false = 0

-- How many of the ranges a number is in.
abbrev pub times : List Range → ℕ → ℕ
times [] x = 0
times (r ∷ rs) x = one (inside x r) + times rs x

pub times-append : (rs qs : List Range) (x : ℕ) → times (rs ++ qs) x ≡ times rs x + times qs x
times-append [] qs x = omega arith
times-append (r ∷ rs) qs x = omega (arith, times-append rs qs x)

retain_none :
    (s : ℕ) (rs : List Range) (split : Option Range)
    → times rs s ≡ 0
    → retain s rs split ≡ (rs, split)
unfolding retain hole
retain_none s [] split h = refl
retain_none s ((start, end) ∷ rs) split h =
    let outside : (ltb s start || ltb end s) ≡ true = ground arith in
    rw (outside, retain_none s rs split (ground arith))

times-hole :
    (s : ℕ) (r : Range) (x : ℕ)
    → IsForward r
    → inside s r ≡ true
    → times (pushed (hole s r)) x ≡ (if x == s then 0 else one (inside x r))
unfolding hole
times-hole s (start, end) x f h = ground arith

times-pushed :
    (left rest : List Range) (split : Option Range) (x : ℕ)
    → times (pushed (left ++ rest, split)) x ≡ times (pushed (left, split)) x + times rest x
times-pushed left rest none x = times-append left rest x
times-pushed left rest (some r) x = omega (
  arith,
  times-append (left ++ rest) (r ∷ []) x,
  times-append left rest x,
  times-append left (r ∷ []) x,
)

hole_outside : (s : ℕ) (r : Range) → inside s r ≡ false → hole s r ≡ (r ∷ [], none)
unfolding hole
hole_outside s (start, end) h = ground arith

later_none : (new : Option Range) → later_of new none ≡ new
later_none none = refl
later_none (some r) = refl

-- The ranges around `s`, where `s` is in one of them at most.
pub times-retain :
    (s : ℕ) (rs : List Range) (x : ℕ)
    → All IsForward rs
    → times rs s ≤ 1
    → times (pushed (retain s rs none)) x ≡ (if x == s then 0 else times rs x)
unfolding retain
times-retain s [] x f h = ground arith
times-retain s (r ∷ rs) x (forward, f) h = elim (Bool-cases (inside s r)) [
  | inl e ↦
      ap (λ q. times (pushed ((hole s r).0 ++ q.0, q.1)) x) (unsplit e)
      ∙ times-pushed (hole s r).0 rs (hole s r).1 x
      ∙ ap (λ n. n + times rs x) (times-hole s r x forward e)
      ∙ elim (Bool-cases (x == s)) [
        | inl q ↦ rw q (omega (arith, ap (times rs) ((==_iff x s).0 q), none_else e))
        | inr q ↦ rw q refl
      ]
  | inr e ↦
      ap
        (λ (q : List Range × Option Range).
          let (rest, last) = retain s rs (later_of q.1 none) in
          times (pushed (q.0 ++ rest, last)) x)
        (hole_outside s r e)
      ∙ kept (retain s rs none) (times-retain s rs x f (omega (arith, ap one e)))
      ∙ elim (Bool-cases (x == s)) [
        | inl q ↦ rw q (omega (arith, ap one (ap (λ y. inside y r) ((==_iff x s).0 q) ∙ e)))
        | inr q ↦ rw q refl
      ]
]
  where
    none_else : inside s r ≡ true → times rs s ≡ 0
    none_else e = omega (arith, ap one e)

    unsplit : inside s r ≡ true → retain s rs (later_of (hole s r).1 none) ≡ (rs, (hole s r).1)
    unsplit e =
        ap (retain s rs) (later_none (hole s r).1) ∙ retain_none s rs (hole s r).1 (none_else e)

    kept :
        (q : List Range × Option Range) {n : ℕ}
        → times (pushed q) x ≡ n
        → times (pushed ((r ∷ []) ++ q.0, q.1)) x ≡ one (inside x r) + n
    kept (rest, none) h = ap (λ m. one (inside x r) + m) h
    kept (rest, some last) h = ap (λ m. one (inside x r) + m) h

-- The gap before an arrival at or ahead of the expected number: what lies between the two.
abbrev pub gap : ℕ → ℕ → ℕ → Bool
gap s expected x = newer s expected && ltb (distance x expected) (distance s expected)

pub times-missed :
    (s expected x : ℕ)
    → s ≤ mask
    → expected ≤ mask
    → x ≤ mask
    → newer s expected ≡ true
    → times (missed s expected) x ≡ one (gap s expected x)
unfolding missed newer distance
times-missed s expected x hs he hx h = ground arith

-- Whether a number is in one of the ranges.
abbrev pub covered : List Range → ℕ → Bool
covered [] x = false
covered (r ∷ rs) x = inside x r || covered rs x

joined_cases :
    (s start end : ℕ)
    → s ≤ mask
    → (joined s (start, end) ≡ none)
      ⊎ ((start ≤ s) × (s ≤ end) × (joined s (start, end) ≡ some (start, end)))
      ⊎ ((s + 1 ≡ start) × (joined s (start, end) ≡ some (s, end)))
      ⊎ ((s ≡ end + 1) × (joined s (start, end) ≡ some (start, s)))
unfolding joined
joined_cases s start end h = ground arith

grown :
    (s : ℕ) (r : Range)
    → s ≤ mask
    → IsForward r
    → (joined s r ≡ none)
      ⊎ ((q : Range) × (joined s r ≡ some q)
          × IsForward q
          × ((x : ℕ) → inside x q ≡ (inside x r || (x == s))))
grown s (start, end) h f = elim (joined_cases s start end h) [
  | inl e ↦ inl e
  | inr (inl (a, b, e)) ↦ inr ((start, end), e, f, λ x. ground arith)
  | inr (inr (inl (a, e))) ↦ inr ((s, end), e, omega arith, λ x. ground arith)
  | inr (inr (inr (a, e))) ↦ inr ((start, s), e, omega arith, λ x. ground arith)
]

or_swap : (a b c : Bool) → ((a || c) || b) ≡ ((a || b) || c)
or_swap a b c = ground arith

or_assoc : (a b c : Bool) → (a || (b || c)) ≡ ((a || b) || c)
or_assoc a b c = ground arith

-- The acknowledged numbers after an arrival are those before it, and the arrived one.
pub covered-insert_ack :
    (s : ℕ) (rs : List Range) (x : ℕ)
    → s ≤ mask
    → All IsForward rs
    → (covered (insert_ack s rs) x ≡ (covered rs x || (x == s))) × All IsForward (insert_ack s rs)
unfolding insert_ack
covered-insert_ack s [] x h f = (ground arith, (omega arith, tt))
covered-insert_ack s (r ∷ rs) x h (forward, f) = elim (grown s r h forward) [
  | inl e ↦
      let (eq, all) = covered-insert_ack s rs x h f in
      rw e (
        ap (λ b. inside x r || b) eq ∙ or_assoc (inside x r) (covered rs x) (x == s),
        (forward, all),
      )
  | inr (q, e, forward', same) ↦ rw e (
    ap (λ b. b || covered rs x) (same x) ∙ or_swap (inside x r) (covered rs x) (x == s),
    (forward', f),
  )
]
