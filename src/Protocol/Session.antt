-- ===== src/Protocol/Session.antt =====
-- `SessionId` as text: `fmt::Display` and `FromStr`. A `&str` is its UTF-8 bytes.
pub mod RoundTrip
use quest_vd_wired.Common.{
  ℕ, zero, suc, ◌+◌, ◌-◌, ◌*◌, ◌/◌, ◌%◌, List, [], ◌∷◌, ◌++◌, Bool, true, false, ◌&&◌, ◌||◌, not,
  ltb, leb, ◌==◌, if◌then◌else◌, Outcome, ok, err, ◌>>=◌, ◌>>◌, reject_if, bytes_eq, bit_or,
  replicate, length, map,
}
use quest_vd_wired.Protocol.Types.{SessionId, ProtocolError, invalid_session_id}

abbrev pub dash : ℕ
dash = b'-'

abbrev pub zero_id : List ℕ
zero_id = replicate 16 0

-- `{byte:02x}`: two lowercase digits.
unfoldable pub hex_digit : ℕ → ℕ
hex_digit n = if ltb n 10 then b'0' + n else b'a' + (n - 10)

unfoldable pub hex_text : ℕ → List ℕ
hex_text b = hex_digit (b / 16 % 16) ∷ hex_digit (b % 16) ∷ []

-- A dash stands in front of the bytes 4, 6, 8 and 10.
unfoldable pub display_from : ℕ → List ℕ → List ℕ
unfolding hex_text
display_from i [] = []
display_from i (b ∷ bs) =
    (if i == 4 || (i == 6 || (i == 8 || i == 10)) then dash ∷ hex_text b else hex_text b)
    ++ display_from (i + 1) bs

unfoldable pub display : SessionId → List ℕ
unfolding display_from
display s = display_from 0 s.bytes

-- `is_ascii_hexdigit`
unfoldable pub is_hex : ℕ → Bool
is_hex b = (leb b'0' b && leb b b'9') || ((leb b'a' b && leb b b'f') || (leb b'A' b && leb b b'F'))

unfoldable pub hex_nibble : ℕ → Outcome ProtocolError ℕ
hex_nibble b =
    if leb b'0' b && leb b b'9'
    then ok (b - b'0')
    else if leb b'a' b && leb b b'f'
    then ok (b - b'a' + 10)
    else if leb b'A' b && leb b b'F'
    then ok (b - b'A' + 10)
    else err invalid_session_id

-- The shape that every byte of the text must have, by its index.
unfoldable pub well_placed : ℕ → List ℕ → Bool
well_placed i [] = true
well_placed i (b ∷ bs) =
    (if i == 8 || (i == 13 || (i == 18 || i == 23)) then b == dash else is_hex b)
    && well_placed (i + 1) bs

-- The iterator without the dashes.
unfoldable pub digits_of : List ℕ → List ℕ
digits_of [] = []
digits_of (b ∷ bs) = if not (b == dash) then b ∷ digits_of bs else digits_of bs

-- The loop over the destination bytes: two nibbles each, or an error where there is none.
unfoldable pub read_pairs : ℕ → List ℕ → Outcome ProtocolError (List ℕ)
read_pairs zero hex = ok []
read_pairs (suc n) (h ∷ l ∷ hex) = do
  high ← hex_nibble h
  low ← hex_nibble l
  rest ← read_pairs n hex
  ok (bit_or (high * 16 % 256) low ∷ rest)
read_pairs (suc n) (h ∷ []) = do _ ← hex_nibble h; err invalid_session_id
read_pairs (suc n) [] = err invalid_session_id

unfoldable pub from_str : List ℕ → Outcome ProtocolError SessionId
from_str value = do
  reject_if (not (length value == 36)) invalid_session_id
  reject_if (not (well_placed 0 value)) invalid_session_id
  bytes ← read_pairs 16 (digits_of value)
  if bytes_eq bytes zero_id then err invalid_session_id else ok (record { bytes = bytes })
