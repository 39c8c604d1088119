-- ===== src/Protocol/Frame/NoPanic.antt =====
-- `Frame::decode` indexes and slices its input only within bounds.
use quest_vd_wired.Common.{
  ℕ, ◌≢◌, ◌<◌, List, ◌∷◌, panic, arith, length, inl, inr, Outcome-cases, from_be16,
}
use quest_vd_wired.Protocol.Types.{MessageType, try_from, try_from-ne-panic}
use quest_vd_wired.Protocol.Frame.{decode_payload, decode}

decode_payload-ne-panic :
    (m : MessageType) (a₀ a₁ a₂ a₃ a₄ a₅ m₁ m₂ l₁ l₂ l₃ l₄ : ℕ) (rest : List ℕ)
    → decode_payload m (a₀ ∷ a₁ ∷ a₂ ∷ a₃ ∷ a₄ ∷ a₅ ∷ m₁ ∷ m₂ ∷ l₁ ∷ l₂ ∷ l₃ ∷ l₄ ∷ rest) ≢ panic
unfolding decode_payload
decode_payload-ne-panic m a₀ a₁ a₂ a₃ a₄ a₅ m₁ m₂ l₁ l₂ l₃ l₄ rest h = ground arith

short_input : (input : List ℕ) → length input < 28 → decode input ≢ panic
unfolding decode
short_input input h e = ground arith

-- No input makes `decode` panic.
pub decode-ne-panic : (input : List ℕ) → decode input ≢ panic
unfolding decode
decode-ne-panic (a₀ ∷ a₁ ∷ a₂ ∷ a₃ ∷ a₄ ∷ a₅ ∷ m₁ ∷ m₂ ∷ l₁ ∷ l₂ ∷ l₃ ∷ l₄ ∷ rest) h =
    elim (Outcome-cases (try_from (from_be16 m₁ m₂))) [
      | inl (m, e) ↦
          ground (arith, decode_payload-ne-panic m a₀ a₁ a₂ a₃ a₄ a₅ m₁ m₂ l₁ l₂ l₃ l₄ rest)
      | inr (inl (x, e)) ↦ ground arith
      | inr (inr e) ↦ try_from-ne-panic (from_be16 m₁ m₂) e
    ]
decode-ne-panic input h = short_input input (omega arith) h
