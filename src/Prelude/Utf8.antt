-- ===== src/Prelude/Utf8.antt =====
-- `String::from_utf8`: which byte sequences are UTF-8.
use rust_raknet.Prelude.{
  ℕ, ◌-◌, Bool, false, ◌&&◌, List, [], ◌∷◌, Option, none, some, leb, ◌==◌, if◌then◌else◌,
}

-- Continuation bytes still to come, and the range of the next of them.
abbrev Expect : Type 0
Expect = ℕ × ℕ × ℕ

in_range : ℕ → ℕ → ℕ → Bool
in_range lo hi b = leb lo b && leb b hi

-- What a first byte announces.
lead : ℕ → Option Expect
unfolding in_range
lead b =
    if leb b 0x7f
    then some (0, 0x80, 0xbf)
    else if in_range 0xc2 0xdf b
    then some (1, 0x80, 0xbf)
    else if b == 0xe0
    then some (2, 0xa0, 0xbf)
    else if b == 0xed
    then some (2, 0x80, 0x9f)
    else if in_range 0xe1 0xef b
    then some (2, 0x80, 0xbf)
    else if b == 0xf0
    then some (3, 0x90, 0xbf)
    else if in_range 0xf1 0xf3 b
    then some (3, 0x80, 0xbf)
    else if b == 0xf4
    then some (3, 0x80, 0x8f)
    else none

next_expect : Expect → ℕ → Option Expect
unfolding lead in_range
next_expect (need, lo, hi) b =
    if need == 0 then lead b else if in_range lo hi b then some (need - 1, 0x80, 0xbf) else none

utf8_from : Expect → List ℕ → Bool
unfolding next_expect
utf8_from (need, lo, hi) [] = need == 0
utf8_from e (b ∷ bs) = elim (next_expect e b) [ none ↦ false | some e' ↦ utf8_from e' bs ]

unfoldable pub is_utf8 : List ℕ → Bool
unfolding utf8_from
is_utf8 bytes = utf8_from (0, 0x80, 0xbf) bytes
