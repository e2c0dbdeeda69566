-- ===== src/Receive/AckSet.antt =====
-- `ACKSet` of src/arq.rs: the datagrams that have arrived and those that are missing.
use rust_raknet.Prelude.{
  ℕ, ◌+◌, ◌-◌, ◌^◌, Bool, not, ◌&&◌, ◌||◌, Option, none, some, List, [], ◌∷◌, ◌++◌, ltb, leb, ◌==◌,
  if◌then◌else◌,
}
use rust_raknet.Sequence.{mask, next, newer}
use rust_raknet.Packet.Records.{Range}

pub record AckSet : Type 0 where
  pub ack : List Range
  pub nack : List Range
  pub next_expected : ℕ

abbrev pub AckSet_default : AckSet
AckSet_default = record { ack = []; nack = []; next_expected = 0 }

-- `(a.0..=a.1).contains(&s)`
abbrev pub inside : ℕ → Range → Bool
inside s (start, end) = leb start s && leb s end

-- What the closure of `retain_mut` leaves of a range, and the range that it splits off.
unfoldable pub hole : ℕ → Range → List Range × Option Range
hole s (start, end) =
    if ltb s start || ltb end s
    then ((start, end) ∷ [], none)
    else if start == end
    then ([], none)
    else if s == start
    then ((start + 1, end) ∷ [], none)
    else if s == end
    then ((start, end - 1) ∷ [], none)
    else ((start, s - 1) ∷ [], some (s + 1, end))

abbrev pub later_of : Option Range → Option Range → Option Range
later_of (some r) earlier = some r
later_of none earlier = earlier

-- `self.nack.retain_mut(..)`, with `split` before and after.
unfoldable pub retain : ℕ → List Range → Option Range → List Range × Option Range
retain s [] split = ([], split)
retain s (range ∷ ranges) split =
    let (left, new) = hole s range in
    let (rest, last) = retain s ranges (later_of new split) in (left ++ rest, last)

abbrev pub pushed : List Range × Option Range → List Range
pushed (ranges, some range) = ranges ++ range ∷ []
pushed (ranges, none) = ranges

-- What has been missed before `s`, where `s` is at or ahead of the expected one.
unfoldable pub missed : ℕ → ℕ → List Range
missed s expected =
    if s == expected
    then []
    else if ltb expected s
    then (expected, s - 1) ∷ []
    else (expected, mask) ∷ (if s == 0 then [] else (0, s - 1) ∷ [])

-- `a.1.saturating_add(1)`
abbrev pub saturating_next : ℕ → ℕ
saturating_next end = if end == 2 ^ 32 - 1 then end else end + 1

-- A round of the loop over `self.ack`: the range as the call leaves it, if it returns there.
unfoldable pub joined : ℕ → Range → Option Range
joined s (start, end) =
    if inside s (start, end)
    then some (start, end)
    else if not (start == 0) && (s == start - 1)
    then some (s, end)
    else if s == saturating_next end
    then some (start, s)
    else none

-- The range, and the ranges behind it, which change if the loop goes on.
abbrev pub in_place : Option Range → Range → List Range → List Range → List Range
in_place (some new) range ranges rest = new ∷ ranges
in_place none range ranges rest = range ∷ rest

-- The loop, and the push behind it.
unfoldable pub insert_ack : ℕ → List Range → List Range
insert_ack s [] = (s, s) ∷ []
insert_ack s (range ∷ ranges) = in_place (joined s range) range ranges (insert_ack s ranges)

unfoldable pub insert : AckSet → ℕ → AckSet
unfolding retain missed insert_ack
insert a s =
    let holes = pushed (retain s a.nack none) in
    if (s == a.next_expected) || newer s a.next_expected
    then record {
      ack = insert_ack s a.ack;
      nack = holes ++ missed s a.next_expected;
      next_expected = next s;
    }
    else record { ack = insert_ack s a.ack; nack = holes; next_expected = a.next_expected }

-- The ranges handed over, whatever `output` held, and the set after the call.
unfoldable pub take_ack_into : AckSet → List Range × AckSet
take_ack_into a = (a.ack, record a { ack = [] })

unfoldable pub take_nack_into : AckSet → List Range × AckSet
take_nack_into a = (a.nack, record a { nack = [] })
