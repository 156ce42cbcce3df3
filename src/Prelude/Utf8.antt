-- ===== src/Prelude/Utf8.antt =====
-- `str::from_utf8`: which byte strings are UTF-8, by the table of well-formed sequences.
use Prim.Native.Nat.{ℕ}
use mathlib.Core.Bool.{Bool, true, false, ◌&&◌}
use mathlib.Core.List.{List, [], ◌∷◌}
use league_mod.Prelude.Tests.{leb, if◌then◌else◌}

-- What may come next: a new code point, or a byte of the range and then so many continuations.
pub data Expect : Type 0 where
  start : Expect
  one_more : ℕ → ℕ → Expect
  two_more : ℕ → ℕ → Expect
  three_more : ℕ → ℕ → Expect
  bad : Expect

within : ℕ → ℕ → ℕ → Bool
within lo hi b = leb lo b && leb b hi

-- The first byte of a sequence fixes the range of the second.
lead : ℕ → Expect
unfolding within
lead b =
    if leb b 0x7f
    then start
    else if within 0xc2 0xdf b
    then one_more 0x80 0xbf
    else if within 0xe0 0xe0 b
    then two_more 0xa0 0xbf
    else if within 0xed 0xed b
    then two_more 0x80 0x9f
    else if within 0xe1 0xef b
    then two_more 0x80 0xbf
    else if within 0xf0 0xf0 b
    then three_more 0x90 0xbf
    else if within 0xf1 0xf3 b
    then three_more 0x80 0xbf
    else if within 0xf4 0xf4 b
    then three_more 0x80 0x8f
    else bad

expect : Expect → ℕ → Expect
unfolding lead
expect start b = lead b
expect (one_more lo hi) b = if within lo hi b then start else bad
expect (two_more lo hi) b = if within lo hi b then one_more 0x80 0xbf else bad
expect (three_more lo hi) b = if within lo hi b then two_more 0x80 0xbf else bad
expect bad b = bad

accept : Expect → List ℕ → Bool
unfolding expect
accept start [] = true
accept _ [] = false
accept x (b ∷ s) = accept (expect x b) s

unfoldable pub is_utf8 : List ℕ → Bool
unfolding accept
is_utf8 s = accept start s
