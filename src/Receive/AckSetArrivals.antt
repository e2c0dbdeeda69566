-- ===== src/Receive/AckSetArrivals.antt =====
-- The invariants of an `AckSet`, and its arrivals.
use rust_raknet.Prelude.{
  ℕ, ◌+◌, ◌≤◌, ◌≡◌, ◌∙◌, inl, inr, true, false, ◌||◌, Option, none, some, List, [], ◌∷◌, ◌++◌, All,
  ◌==◌, if◌then◌else◌, arith, Bool-cases, All-append, append_assoc,
}
use rust_raknet.Sequence.{mask, next, newer, distance}
use rust_raknet.Packet.Records.{Range}
use rust_raknet.Packet.RecordsInput.{IsForward}
use rust_raknet.Receive.AckSet.{AckSet, hole, later_of, retain, pushed, missed, insert}
use rust_raknet.Receive.AckSetLaws.{
  one, times, times-append, times-retain, gap, covered, covered-insert_ack,
}

-- The invariant of the set: 24-bit numbers, and no range that is reversed.
pub record IsAckSet (a : AckSet) : Type 0 where
  pub next_range : a.next_expected ≤ mask
  pub acks_forward : All IsForward a.ack
  pub nacks_forward : All IsForward a.nack

hole-IsForward :
    (s : ℕ) (r : Range)
    → IsForward r
    → All IsForward (hole s r).0 × All IsForward (pushed ([], (hole s r).1))
unfolding hole
hole-IsForward s (start, end) f = ground arith

later-IsForward :
    (new split : Option Range)
    → All IsForward (pushed ([], new))
    → All IsForward (pushed ([], split))
    → All IsForward (pushed ([], later_of new split))
later-IsForward none split h k = k
later-IsForward (some r) split h k = h

pushed-IsForward :
    (left rest : List Range) (last : Option Range)
    → All IsForward left
    → All IsForward (pushed (rest, last))
    → All IsForward (pushed (left ++ rest, last))
pushed-IsForward left rest none h k = All-append IsForward left rest h k
pushed-IsForward left rest (some r) h k =
    rw (append_assoc left rest (r ∷ [])) (All-append IsForward left (rest ++ r ∷ []) h k)

retain-IsForward :
    (s : ℕ) (rs : List Range) (split : Option Range)
    → All IsForward rs
    → All IsForward (pushed ([], split))
    → All IsForward (pushed (retain s rs split))
unfolding retain
retain-IsForward s [] split f h = h
retain-IsForward s (r ∷ rs) split (forward, f) h =
    let (left, new) = hole-IsForward s r forward in
    pushed-IsForward (hole s r).0 (retain s rs (later_of (hole s r).1 split)).0
      (retain s rs (later_of (hole s r).1 split)).1 left
      (retain-IsForward s rs (later_of (hole s r).1 split) f
        (later-IsForward (hole s r).1 split new h))

missed-IsForward : (s expected : ℕ) → s ≤ mask → expected ≤ mask → All IsForward (missed s expected)
unfolding missed
missed-IsForward s expected h k = ground arith

-- The arrival of a 24-bit number keeps the expected number in 24 bits and all acknowledged and
-- missing ranges in order.
pub insert-IsAckSet : (a : AckSet) (s : ℕ) → IsAckSet a → s ≤ mask → IsAckSet (insert a s)
unfolding insert next
insert-IsAckSet a s i h = elim (Bool-cases ((s == a.next_expected) || newer s a.next_expected)) [
  | inl e ↦ rw e (record {
    next_range = omega arith;
    acks_forward = (covered-insert_ack s a.ack 0 h i.acks_forward).1;
    nacks_forward =
        All-append IsForward (pushed (retain s a.nack none)) (missed s a.next_expected)
          (retain-IsForward s a.nack none i.nacks_forward tt)
          (missed-IsForward s a.next_expected h i.next_range);
  })
  | inr e ↦ rw e (record {
    next_range = i.next_range;
    acks_forward = (covered-insert_ack s a.ack 0 h i.acks_forward).1;
    nacks_forward = retain-IsForward s a.nack none i.nacks_forward tt;
  })
]

-- In a set whose expected number has 24 bits and whose ranges are in order, the numbers
-- acknowledged after the arrival of a 24-bit number are those before it and the arrived one.
pub covered-insert :
    (a : AckSet) (s x : ℕ)
    → IsAckSet a
    → s ≤ mask
    → covered (insert a s).ack x ≡ (covered a.ack x || (x == s))
unfolding insert
covered-insert a s x i h = elim (Bool-cases ((s == a.next_expected) || newer s a.next_expected)) [
  | inl e ↦ rw e (covered-insert_ack s a.ack x h i.acks_forward).0
  | inr e ↦ rw e (covered-insert_ack s a.ack x h i.acks_forward).0
]

ahead-gap :
    (s expected x : ℕ)
    → s ≤ mask
    → expected ≤ mask
    → x ≤ mask
    → ((s == expected) || newer s expected) ≡ true
    → times (missed s expected) x ≡ one (gap s expected x)
unfolding missed newer distance
ahead-gap s expected x hs he hx h = ground arith

behind-gap :
    (s expected x : ℕ) → ((s == expected) || newer s expected) ≡ false → one (gap s expected x) ≡ 0
behind-gap s expected x h = ground arith

-- In a set whose expected number has 24 bits and whose ranges are in order, when a 24-bit number
-- arrives that is in one missing range at most, each other 24-bit number is in as many missing
-- ranges as before, and in one more if it lies between the expected number and a newer arrival;
-- the arrived number is in none.
pub times-insert :
    (a : AckSet) (s x : ℕ)
    → IsAckSet a
    → s ≤ mask
    → x ≤ mask
    → times a.nack s ≤ 1
    → times (insert a s).nack x
      ≡ (if x == s then 0 else times a.nack x) + one (gap s a.next_expected x)
unfolding insert
times-insert a s x i h k once =
    elim (Bool-cases ((s == a.next_expected) || newer s a.next_expected)) [
      | inl e ↦ rw e (
          times-append (pushed (retain s a.nack none)) (missed s a.next_expected) x ∙ (λ t.
            times-retain s a.nack x i.nacks_forward once t
            + ahead-gap s a.next_expected x h i.next_range k e t))
      | inr e ↦ rw e (
          omega
            (arith, times-retain s a.nack x i.nacks_forward once, behind-gap s a.next_expected x e))
    ]
