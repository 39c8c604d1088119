-- ===== src/Common/Utf8.antt =====
-- `std::str::from_utf8`: which byte sequences are UTF-8, by the ranges of the Unicode standard.
use quest_vd_wired.Common.Tests.{ltb, leb, ◌==◌, if◌then◌else◌}
use Prim.Native.Nat.{ℕ, zero, suc}
use mathlib.Core.Bool.{Bool, true, false, ◌&&◌}
use mathlib.Core.List.{List, [], ◌∷◌}

-- What may come next: a new character, or a byte of a range and so many further ones.
pub data Expect : Type 0 where
  start : Expect
  within : ℕ → ℕ → ℕ → Expect
  invalid : Expect

pub next_byte : Expect → ℕ → Expect
next_byte start b =
    if ltb b 0x80
    then start
    else if leb 0xc2 b && leb b 0xdf
    then within 0x80 0xbf 0
    else if b == 0xe0
    then within 0xa0 0xbf 1
    else if b == 0xed
    then within 0x80 0x9f 1
    else if leb 0xe1 b && leb b 0xef
    then within 0x80 0xbf 1
    else if b == 0xf0
    then within 0x90 0xbf 2
    else if leb 0xf1 b && leb b 0xf3
    then within 0x80 0xbf 2
    else if b == 0xf4
    then within 0x80 0x8f 2
    else invalid
next_byte (within low high zero) b = if leb low b && leb b high then start else invalid
next_byte (within low high (suc n)) b =
    if leb low b && leb b high then within 0x80 0xbf n else invalid
next_byte invalid b = invalid

pub ends_at : Expect → List ℕ → Bool
ends_at start [] = true
ends_at (within low high n) [] = false
ends_at invalid [] = false
ends_at e (b ∷ bs) = ends_at (next_byte e b) bs

unfoldable pub is_utf8 : List ℕ → Bool
unfolding ends_at next_byte
is_utf8 bytes = ends_at start bytes
