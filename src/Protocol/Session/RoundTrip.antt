-- ===== src/Protocol/Session/RoundTrip.antt =====
-- A session identifier is read back from its text.
use quest_vd_wired.Common.{
  ℕ, ◌+◌, ◌*◌, ◌/◌, ◌%◌, ◌≡◌, ◌<◌, refl, true, false, List, [], ◌∷◌, ok, arith, length, bytes_eq,
  bit_or, ◌==◌, AreBytes, ==_iff, holds_below, holds_below-at,
}
use quest_vd_wired.Protocol.Types.{SessionId, IsSession}
use quest_vd_wired.Protocol.Session.{
  zero_id, hex_digit, display_from, display, is_hex, hex_nibble, well_placed, digits_of, read_pairs,
  from_str, dash,
}

digit_is_hex : (n : ℕ) → is_hex (hex_digit (n % 16)) ≡ true
unfolding is_hex hex_digit
digit_is_hex n = ground arith

digit_ne_dash : (n : ℕ) → (hex_digit (n % 16) == dash) ≡ false
unfolding hex_digit
digit_ne_dash n = ground arith

hex_nibble-hex_digit : (n : ℕ) → hex_nibble (hex_digit (n % 16)) ≡ ok (n % 16)
unfolding hex_nibble hex_digit
hex_nibble-hex_digit n = ground arith

join_table : holds_below (λ b. bit_or (b / 16 % 16 * 16 % 256) (b % 16) == b) 256 ≡ true
unfolding holds_below
join_table = refl

join : (b : ℕ) → b < 256 → bit_or (b / 16 % 16 * 16 % 256) (b % 16) ≡ b
join b h =
    (==_iff _ b).0
      (holds_below-at (λ c. bit_or (c / 16 % 16 * 16 % 256) (c % 16) == c) 256 b h join_table)

-- The digits of the text, without the dashes.
nibble_text : List ℕ → List ℕ
nibble_text [] = []
nibble_text (b ∷ bs) = hex_digit (b / 16 % 16) ∷ hex_digit (b % 16) ∷ nibble_text bs

digits_of-display_from : (i : ℕ) (bs : List ℕ) → digits_of (display_from i bs) ≡ nibble_text bs
unfolding digits_of display_from nibble_text
digits_of-display_from i [] = refl
digits_of-display_from i (b ∷ bs) =
    ground (arith, digit_ne_dash (b / 16), digit_ne_dash b, digits_of-display_from (i + 1) bs)

read_pairs-nibble_text :
    (bs : List ℕ) → AreBytes bs → read_pairs (length bs) (nibble_text bs) ≡ ok bs
unfolding read_pairs nibble_text
read_pairs-nibble_text [] h = refl
read_pairs-nibble_text (b ∷ bs) (hb, h) =
    rw (
      hex_nibble-hex_digit (b / 16),
      hex_nibble-hex_digit b,
      read_pairs-nibble_text bs h,
      join b hb,
    )

display_placed :
    (bs : List ℕ)
    → length bs ≡ 16
    → (length (display_from 0 bs) ≡ 36) × (well_placed 0 (display_from 0 bs) ≡ true)
unfolding display_from well_placed
display_placed
      (b₀ ∷ b₁ ∷ b₂ ∷ b₃ ∷ b₄ ∷ b₅ ∷ b₆ ∷ b₇ ∷ b₈ ∷ b₉ ∷ b₁₀ ∷ b₁₁ ∷ b₁₂ ∷ b₁₃ ∷ b₁₄ ∷ b₁₅ ∷ []) h =
    (refl, simp digit_is_hex)
display_placed bs h = absurd (omega arith)

-- The text of a session identifier of sixteen bytes that are not all zero is parsed to it.
pub from_str-display :
    (s : SessionId) → IsSession s → bytes_eq s.bytes zero_id ≡ false → from_str (display s) ≡ ok s
unfolding from_str display
from_str-display s h nz =
    let (len, placed) = display_placed s.bytes h.sixteen in
    let r : read_pairs 16 (digits_of (display_from 0 s.bytes)) ≡ ok s.bytes =
      rw (digits_of-display_from 0 s.bytes, ← h.sixteen)
        (read_pairs-nibble_text s.bytes h.are_bytes) in
    rw (len, placed, r, nz)
