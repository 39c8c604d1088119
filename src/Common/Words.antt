-- ===== src/Common/Words.antt =====
-- Big-endian words: `to_be_bytes` and `from_be_bytes` at 16, 32 and 64 bits.
use Prim.Native.Nat.{ℕ, ◌+◌, ◌*◌, ◌/◌, ◌%◌, ◌^◌, ◌<◌}
use quest_vd_wired.Common.Bytes.{IsByte}
use mathlib.Core.Path.{◌≡◌}
use native.Mathlib.Omega.{arith}
use mathlib.Core.List.{List, [], ◌∷◌, ◌++◌}

abbrev pub be16 : ℕ → List ℕ
be16 n = (n / 256 % 256) ∷ (n % 256) ∷ []

abbrev pub from_be16 : ℕ → ℕ → ℕ
from_be16 a b = a * 256 + b

abbrev pub be32 : ℕ → List ℕ
be32 n = (n / 16777216 % 256) ∷ (n / 65536 % 256) ∷ (n / 256 % 256) ∷ (n % 256) ∷ []

abbrev pub from_be32 : ℕ → ℕ → ℕ → ℕ → ℕ
from_be32 a b c d = a * 16777216 + b * 65536 + c * 256 + d

abbrev pub be64 : ℕ → List ℕ
be64 n = be32 (n / 4294967296 % 4294967296) ++ be32 (n % 4294967296)

abbrev pub from_be64 : ℕ → ℕ → ℕ → ℕ → ℕ → ℕ → ℕ → ℕ → ℕ
from_be64 a b c d e f g h = from_be32 a b c d * 4294967296 + from_be32 e f g h

-- Words are read back from the bytes that they were written as.
pub be16-from_be16 : (n : ℕ) → n < 65536 → from_be16 (n / 256 % 256) (n % 256) ≡ n
be16-from_be16 n h = omega arith

pub be32-from_be32 :
    (n : ℕ)
    → n < 2 ^ 32
    → from_be32 (n / 16777216 % 256) (n / 65536 % 256) (n / 256 % 256) (n % 256) ≡ n
be32-from_be32 n h = omega arith

pub be64-from_be64 :
    (n : ℕ)
    → n < 2 ^ 64
    → let u = n / 4294967296 % 4294967296 in
      let v = n % 4294967296 in
      from_be64
        (u / 16777216 % 256)
        (u / 65536 % 256)
        (u / 256 % 256)
        (u % 256)
        (v / 16777216 % 256)
        (v / 65536 % 256)
        (v / 256 % 256)
        (v % 256)
      ≡ n
be64-from_be64 n h =
    let u = n / 4294967296 % 4294967296 in
    let v = n % 4294967296 in
    omega (arith, be32-from_be32 u (omega arith), be32-from_be32 v (omega arith))

-- The other way round, the bytes of a word are those that it was made of.
pub be16_of_bytes :
    (a b n : ℕ) → IsByte a → IsByte b → n ≡ from_be16 a b → (n / 256 % 256 ≡ a) × (n % 256 ≡ b)
be16_of_bytes a b n ha hb h = omega arith

pub be32_of_bytes :
    (a b c d n : ℕ)
    → IsByte a
    → IsByte b
    → IsByte c
    → IsByte d
    → n ≡ from_be32 a b c d
    → (n / 16777216 % 256 ≡ a) × (n / 65536 % 256 ≡ b) × (n / 256 % 256 ≡ c) × (n % 256 ≡ d)
be32_of_bytes a b c d n ha hb hc hd h = omega arith
