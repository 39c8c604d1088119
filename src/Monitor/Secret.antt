-- ===== src/Monitor/Secret.antt =====
-- The comparison of secrets in constant time: `constant_time_eq` of
-- host-rust/crates/gnirehtet-vd/src/runtime.rs.
use Prim.Native.Nat.{differ, digits, bit_xor, bit_or-bitwise, bit_xor-bitwise}
use quest_vd_wired.Common.{
  ℕ, zero, suc, ◌/◌, ◌%◌, ◌≤◌, max, bit_or, ◌≡◌, refl, Bool, true, List, [], ◌∷◌, arith, ◌==◌,
  length, bytes_eq, bytes_eq_refl, bytes_eq→eq, Bool-cases, inl, inr, ==_iff, sym, ap, ◌∙◌,
}

-- The loop over the indices, where a list that has ended gives zeros.
unfoldable pub differences : ℕ → List ℕ → List ℕ → ℕ
differences difference [] [] = difference
differences difference (l ∷ ls) [] = differences (bit_or difference (bit_xor l 0)) ls []
differences difference [] (r ∷ rs) = differences (bit_or difference (bit_xor 0 r)) [] rs
differences difference (l ∷ ls) (r ∷ rs) = differences (bit_or difference (bit_xor l r)) ls rs

unfoldable pub constant_time_eq : List ℕ → List ℕ → Bool
unfolding differences
constant_time_eq left right = differences (bit_xor (length left) (length right)) left right == 0

-- Combined digits are zero only where each pair of digits gives zero.
max-zero : (n a b : ℕ) → a ≤ n → digits (λ b. b) max n a b ≡ 0 → (a ≡ 0) × (b ≡ 0)
max-zero zero a b p h = (omega arith, h)
max-zero (suc n) zero b p h = (refl, h)
max-zero (suc n) (suc a) b p h =
    let (x, y) = max-zero n (suc a / 2) (b / 2) (omega arith) (omega arith) in
    (omega (arith, h), omega (arith, h))

differ-zero : (x y : ℕ) → differ x y ≡ 0 → x ≡ y
differ-zero zero y h = omega arith
differ-zero (suc x) zero h = h
differ-zero (suc x) (suc y) h = omega (arith, differ-zero x y h)

xor-zero : (n a b : ℕ) → a ≤ n → digits (λ b. b) differ n a b ≡ 0 → a ≡ b
xor-zero zero a b p h = omega arith
xor-zero (suc n) zero b p h = omega arith
xor-zero (suc n) (suc a) b p h = omega (
  arith,
  xor-zero n (suc a / 2) (b / 2) (omega arith) (omega arith),
  differ-zero (suc a % 2) (b % 2) (omega arith),
)

differ_self : (x : ℕ) → differ x x ≡ 0
differ_self zero = refl
differ_self (suc x) = differ_self x

xor_self : (n a : ℕ) → a ≤ n → digits (λ b. b) differ n a a ≡ 0
xor_self zero a p = omega arith
xor_self (suc n) zero p = refl
xor_self (suc n) (suc a) p =
    omega (arith, xor_self n (suc a / 2) (omega arith), differ_self (suc a % 2))

or-zero : (a b : ℕ) → bit_or a b ≡ 0 → (a ≡ 0) × (b ≡ 0)
or-zero a b h = max-zero a a b (omega arith) (omega (arith, bit_or-bitwise a b, h))

xor-zero-eq : (a b : ℕ) → bit_xor a b ≡ 0 → a ≡ b
xor-zero-eq a b h = xor-zero a a b (omega arith) (omega (arith, bit_xor-bitwise a b, h))

bit_xor_self : (a : ℕ) → bit_xor a a ≡ 0
bit_xor_self a = omega (arith, bit_xor-bitwise a a, xor_self a a (omega arith))

-- A difference that was found stays.
differences-zero :
    (d : ℕ) (ls rs : List ℕ) → differences d ls rs ≡ 0 → (d ≡ 0) × (length ls ≡ length rs → ls ≡ rs)
unfolding differences
differences-zero d [] [] h = (h, λ e. refl)
differences-zero d (l ∷ ls) [] h =
    let (z, _) = differences-zero (bit_or d (bit_xor l 0)) ls [] h in
    ((or-zero d (bit_xor l 0) z).0, λ e. absurd (omega (arith, e)))
differences-zero d [] (r ∷ rs) h =
    let (z, _) = differences-zero (bit_or d (bit_xor 0 r)) [] rs h in
    ((or-zero d (bit_xor 0 r) z).0, λ e. absurd (omega (arith, e)))
differences-zero d (l ∷ ls) (r ∷ rs) h =
    let (z, same) = differences-zero (bit_or d (bit_xor l r)) ls rs h in
    let (none, x) = or-zero d (bit_xor l r) z in
    let e = xor-zero-eq l r x in (none, λ k. ground (arith, same (omega (arith, k))))

differences_self : (ls : List ℕ) → differences 0 ls ls ≡ 0
unfolding differences
differences_self [] = refl
differences_self (l ∷ ls) = rw (bit_xor_self l) (differences_self ls)

accepts : (left right : List ℕ) → bytes_eq left right ≡ true → constant_time_eq left right ≡ true
unfolding constant_time_eq
accepts left right same =
    rw (← bytes_eq→eq left right same)
      (rw (bit_xor_self (length left)) (rw (differences_self left) refl))

accepted-eq : (left right : List ℕ) → constant_time_eq left right ≡ true → left ≡ right
unfolding constant_time_eq
accepted-eq left right h =
    let d = bit_xor (length left) (length right) in
    let (z, same) = differences-zero d left right ((==_iff _ 0).0 h) in
    same (xor-zero-eq (length left) (length right) z)

-- The comparison that takes the same time for every secret of a length accepts exactly what the equality
-- of the bytes accepts, whatever the lengths.
pub constant_time_eq-bytes_eq :
    (left right : List ℕ) → constant_time_eq left right ≡ bytes_eq left right
constant_time_eq-bytes_eq left right = elim (Bool-cases (bytes_eq left right)) [
  | inl same ↦ accepts left right same ∙ sym same
  | inr other ↦ elim (Bool-cases (constant_time_eq left right)) [
    | inl accepted ↦ absurd (
        let e = ap (bytes_eq left) (sym (accepted-eq left right accepted)) in
        let r = bytes_eq_refl left in ground arith)
    | inr rejected ↦ rejected ∙ sym other
  ]
]
