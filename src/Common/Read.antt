-- ===== src/Common/Read.antt =====
-- How `str` reads a value: `parse` for `bool` and `u64`, and the ways to split a text.
use Prim.Native.Nat.{ℕ, ◌+◌, ◌-◌, ◌*◌, ◌^◌}
use mathlib.Core.Bool.{Bool, true, false, ◌&&◌}
use mathlib.Core.List.{List, [], ◌∷◌}
use mathlib.Core.Option.{Option, none, some}
use quest_vd_wired.Common.Tests.{ltb, leb, ◌==◌, if◌then◌else◌}
use quest_vd_wired.Common.Bytes.{bytes_eq}
use quest_vd_wired.Common.Text.{codes, on_first_line}

unfoldable pub parse_bool : List ℕ → Option Bool
parse_bool s =
    if bytes_eq s (codes "true")
    then some true
    else if bytes_eq s (codes "false")
    then some false
    else none

-- Each digit is multiplied in and added with a check for overflow.
unfoldable pub read_digits : ℕ → List ℕ → Option ℕ
read_digits n [] = some n
read_digits n (c ∷ cs) =
    let n' = n * 10 + (c - b'0') in
    let rest = read_digits n' cs in
    if leb b'0' c && (leb c b'9' && ltb n' (2 ^ 64)) then rest else none

unfoldable pub some_digits : List ℕ → Option ℕ
unfolding read_digits
some_digits [] = none
some_digits (c ∷ cs) = read_digits 0 (c ∷ cs)

-- A sign `+` may stand before the digits, and `-` is refused.
unfoldable pub parse_u64 : List ℕ → Option ℕ
unfolding read_digits some_digits
parse_u64 [] = none
parse_u64 (c ∷ cs) = if c == b'+' then some_digits cs else read_digits 0 (c ∷ cs)

-- `split` at a character.
unfoldable pub split : ℕ → List ℕ → List (List ℕ)
split at [] = [] ∷ []
split at (c ∷ cs) = let rest = split at cs in if c == at then [] ∷ rest else on_first_line c rest

abbrev pub behind_key : ℕ → Option (List ℕ × List ℕ) → Option (List ℕ × List ℕ)
behind_key c none = none
behind_key c (some (key, value)) = some (c ∷ key, value)

-- `split_once`
unfoldable pub split_once : ℕ → List ℕ → Option (List ℕ × List ℕ)
split_once at [] = none
split_once at (c ∷ cs) =
    let rest = split_once at cs in if c == at then some ([], cs) else behind_key c rest
