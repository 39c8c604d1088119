-- ===== src/Track/Text.antt =====
-- The text operations that the decoder uses, and the line parsers.
use quest_vd_wired.Common.{
  is_empty, ℕ, zero, suc, ◌-◌, Bool, true, false, ◌&&◌, ◌||◌, not, leb, ◌==◌, if◌then◌else◌, Option,
  none, some, List, [], ◌∷◌, bytes_eq,
}

-- How many bytes the white space takes that begins with three given bytes, or 0:
-- `char::is_whitespace`. A text that ends sooner goes on with zeros.
abbrev pub white_bytes : ℕ → ℕ → ℕ → ℕ
white_bytes a b c =
    if (leb 9 a && leb a 13) || a == 32
    then 1
    else if a == 0xc2 && (b == 0x85 || b == 0xa0)
    then 2
    else if a == 0xe1 && (b == 0x9a && c == 0x80)
    then 3
    else if (a == 0xe2 && b == 0x80)
        && ((leb 0x80 c && leb c 0x8a) || (c == 0xa8 || (c == 0xa9 || c == 0xaf)))
    then 3
    else if (a == 0xe2 && (b == 0x81 && c == 0x9f)) || (a == 0xe3 && (b == 0x80 && c == 0x80))
    then 3
    else 0

abbrev pub white_width : List ℕ → ℕ
white_width [] = 0
white_width (a ∷ []) = white_bytes a 0 0
white_width (a ∷ b ∷ []) = white_bytes a b 0
white_width (a ∷ b ∷ c ∷ bs) = white_bytes a b c

-- Without the white space that it begins with; the first `k` bytes still belong to one.
unfoldable pub skip_white : ℕ → List ℕ → List ℕ
skip_white k [] = []
skip_white zero (b ∷ bs) =
    let width = white_width (b ∷ bs) in
    let rest = skip_white (width - 1) bs in if width == 0 then b ∷ bs else rest
skip_white (suc k) (b ∷ bs) = skip_white k bs

unfoldable pub take_word : List ℕ → List ℕ
take_word [] = []
take_word (b ∷ bs) = let rest = take_word bs in if white_width (b ∷ bs) == 0 then b ∷ rest else []

abbrev pub device : List ℕ
device = b'd' ∷ b'e' ∷ b'v' ∷ b'i' ∷ b'c' ∷ b'e' ∷ []

-- What stands behind the first tab, by `split_once`.
unfoldable pub after_tab : List ℕ → Option (List ℕ)
after_tab [] = none
after_tab (b ∷ bs) = let rest = after_tab bs in if b == 9 then some bs else rest

abbrev pub first_word_is_device : Option (List ℕ) → Bool
first_word_is_device none = false
first_word_is_device (some state) = bytes_eq (take_word (skip_white 0 state)) device

-- The test of one line for an available device.
unfoldable pub is_device_line : List ℕ → Bool
unfolding after_tab take_word skip_white
is_device_line line = first_word_is_device (after_tab line)

-- `trim_end_matches('\r')`
unfoldable pub trim_returns : List ℕ → List ℕ
trim_returns [] = []
trim_returns (b ∷ bs) =
    let rest = trim_returns bs in if b == b'\r' && is_empty rest then [] else b ∷ rest

pub record TrackDevicesTextParser : Type 0 where
  pub in_snapshot : Bool
  pub device_available : Bool

-- "List of devices attached"
abbrev pub list_header : List ℕ
list_header =
    b'L' ∷ b'i' ∷ b's' ∷ b't' ∷ 32 ∷ b'o' ∷ b'f' ∷ 32 ∷ b'd' ∷ b'e' ∷ b'v' ∷ b'i' ∷ b'c' ∷ b'e'
    ∷ b's' ∷ 32 ∷ b'a' ∷ b't' ∷ b't' ∷ b'a' ∷ b'c' ∷ b'h' ∷ b'e' ∷ b'd' ∷ []

abbrev pub has_tab : Option (List ℕ) → Bool
has_tab none = false
has_tab (some rest) = true

-- The line without its carriage returns.
unfoldable pub push_trimmed : TrackDevicesTextParser → List ℕ → TrackDevicesTextParser × Option Bool
unfolding is_device_line
push_trimmed p line =
    if bytes_eq line list_header
    then (
      record { in_snapshot = true; device_available = false },
      if p.in_snapshot then some p.device_available else none,
    )
    else if is_empty line
    then (
      record { in_snapshot = false; device_available = false },
      some (p.in_snapshot && p.device_available),
    )
    else if not p.in_snapshot && not (has_tab (after_tab line))
    then (p, none)
    else let available = is_device_line line in
      (
        record {
          in_snapshot = true;
          device_available = (p.in_snapshot && p.device_available) || available;
        },
        if available then some true else none,
      )

unfoldable pub push_line : TrackDevicesTextParser → List ℕ → TrackDevicesTextParser × Option Bool
unfolding push_trimmed trim_returns
push_line p line = push_trimmed p (trim_returns line)
