-- ===== src/Common/Text.antt =====
-- The methods of `str` that the components share, on a text as a list of numbers: its characters, or
-- its UTF-8 bytes where a method reads none but ASCII.
use Prim.Native.Char.{code}
use Prim.Native.Nat.{ℕ, zero, suc, ◌+◌, ◌/◌, ◌%◌}
use Prim.Native.String.{String}
use mathlib.Core.Bool.{Bool, true, false, ◌&&◌, ◌||◌, not}
use mathlib.Core.List.{List, [], ◌∷◌, ◌++◌, map}
use mathlib.Core.Option.{Option, none, some}
use quest_vd_wired.Common.Tests.{ltb, leb, ◌==◌, if◌then◌else◌}

-- The characters of a literal.
abbrev pub codes : String → List ℕ
codes String.[] = []
codes (String.◌∷◌ c s) = code c ∷ codes s

abbrev pub begins_newline : List ℕ → Bool
begins_newline [] = false
begins_newline (b ∷ bs) = b == b'\n'

abbrev pub on_first_line : ℕ → List (List ℕ) → List (List ℕ)
on_first_line b [] = (b ∷ []) ∷ []
on_first_line b (line ∷ lines) = (b ∷ line) ∷ lines

-- `str::lines`: a line ends with a newline, or a carriage return and a newline.
unfoldable pub lines : List ℕ → List (List ℕ)
lines [] = []
lines (b ∷ bs) =
    let rest = lines bs in
    if b == b'\n'
    then [] ∷ rest
    else if b == b'\r' && begins_newline bs
    then rest
    else on_first_line b rest

abbrev pub any_line : (List ℕ → Bool) → List (List ℕ) → Bool
any_line test [] = false
any_line test (line ∷ lines) = test line || any_line test lines

abbrev pub is_empty : List ℕ → Bool
is_empty [] = true
is_empty (b ∷ bs) = false

-- `char::is_whitespace`
unfoldable pub is_whitespace : ℕ → Bool
is_whitespace c =
    (leb 9 c && leb c 13)
    || (c == 32
        || (c == 0x85
            || (c == 0xa0
                || (c == 0x1680
                    || ((leb 0x2000 c && leb c 0x200a)
                        || (c == 0x2028
                            || (c == 0x2029 || (c == 0x202f || (c == 0x205f || c == 0x3000)))))))))

unfoldable pub trim_start : List ℕ → List ℕ
trim_start [] = []
trim_start (c ∷ cs) = let rest = trim_start cs in if is_whitespace c then rest else c ∷ cs

unfoldable pub trim_end : List ℕ → List ℕ
trim_end [] = []
trim_end (c ∷ cs) =
    let rest = trim_end cs in if is_whitespace c && is_empty rest then [] else c ∷ rest

unfoldable pub trim : List ℕ → List ℕ
unfolding trim_start trim_end
trim s = trim_end (trim_start s)

abbrev pub begins_word : List ℕ → Bool
begins_word [] = false
begins_word (c ∷ cs) = not (is_whitespace c)

-- `split_whitespace`
unfoldable pub words : List ℕ → List (List ℕ)
words [] = []
words (c ∷ cs) =
    let rest = words cs in
    if is_whitespace c
    then rest
    else if begins_word cs
    then on_first_line c rest
    else (c ∷ []) ∷ rest

-- `strip_prefix`, the prefix first.
unfoldable pub strip_prefix : List ℕ → List ℕ → Option (List ℕ)
strip_prefix [] s = some s
strip_prefix (p ∷ ps) [] = none
strip_prefix (p ∷ ps) (c ∷ cs) = let rest = strip_prefix ps cs in if p == c then rest else none

abbrev pub is_found : Option (List ℕ) → Bool
is_found none = false
is_found (some s) = true

abbrev pub starts_with : List ℕ → List ℕ → Bool
starts_with prefix s = is_found (strip_prefix prefix s)

-- `contains`, what is looked for first.
unfoldable pub contains_text : List ℕ → List ℕ → Bool
unfolding strip_prefix
contains_text marker [] = starts_with marker []
contains_text marker (c ∷ cs) = starts_with marker (c ∷ cs) || contains_text marker cs

unfoldable pub to_ascii_lowercase : List ℕ → List ℕ
to_ascii_lowercase s = map (λ c. if leb b'A' c && leb c b'Z' then c + 32 else c) s

-- A number in decimal, of at most as many digits as the first argument says.
unfoldable pub decimal_digits : ℕ → ℕ → List ℕ
decimal_digits zero n = []
decimal_digits (suc k) n =
    let front = decimal_digits k (n / 10) in
    (if ltb n 10 then [] else front) ++ ((n % 10 + b'0') ∷ [])

-- `u64` and shorter types: at most 20 digits.
unfoldable pub decimal : ℕ → List ℕ
unfolding decimal_digits
decimal n = decimal_digits 20 n
