-- ===== src/Protocol/Frame/RoundTrip.antt =====
-- What `encode` writes, `decode` reads back.
use quest_vd_wired.Common.{
  ℕ, ◌+◌, ◌/◌, ◌%◌, ◌^◌, ◌≡◌, List, [], ◌∷◌, ◌++◌, ok, err, ◌↔◌, arith, length, AreBytes, ◌≤◌, ◌<◌,
  length-append, take-append, drop-append, take_all, take, drop, ◌∙◌, be16-from_be16,
  be32-from_be32, be16_of_bytes, be32_of_bytes, from_be32, from_be16,
}
use quest_vd_wired.Protocol.Types.{
  ProtocolError, payload_too_large, IsSession, Frame, MessageType, hello, max_payload_len, to_u16,
  try_from, try_from-to_u16,
}
use quest_vd_wired.Protocol.Frame.{encode, decode_payload, decode}

-- What the Rust types of a frame say of its fields.
pub record IsFrame (f : Frame) : Type 0 where
  pub session : IsSession f.session_id
  pub are_bytes : AreBytes f.payload

-- The input whose first twelve bytes are a header of the right magic and version.
abbrev pub wire : ℕ → ℕ → ℕ → ℕ → ℕ → ℕ → List ℕ → List ℕ
wire m₁ m₂ l₁ l₂ l₃ l₄ rest = 71 ∷ 78 ∷ 82 ∷ 52 ∷ 0 ∷ 4 ∷ m₁ ∷ m₂ ∷ l₁ ∷ l₂ ∷ l₃ ∷ l₄ ∷ rest

decode-wire :
    (m₁ m₂ l₁ l₂ l₃ l₄ : ℕ) (rest : List ℕ) (m : MessageType)
    → try_from (from_be16 m₁ m₂) ≡ ok m
    → from_be32 l₁ l₂ l₃ l₄ ≤ max_payload_len
    → length rest ≡ 16 + from_be32 l₁ l₂ l₃ l₄
    → decode (wire m₁ m₂ l₁ l₂ l₃ l₄ rest)
      ≡ ok (record {
        message_type = m;
        session_id = record { bytes = take 16 rest };
        payload = take (from_be32 l₁ l₂ l₃ l₄) (drop 16 rest);
      })
unfolding decode decode_payload
decode-wire m₁ m₂ l₁ l₂ l₃ l₄ rest m hm hl hr = ground arith

module _ (f : Frame) where
  -- A frame that `encode` takes has a short payload, and is written as a header and a rest.
  pub encode-wire :
      length f.payload ≤ max_payload_len
      → encode f
        ≡ ok (
            wire
              (to_u16 f.message_type / 256 % 256)
              (to_u16 f.message_type % 256)
              (length f.payload % 2 ^ 32 / 16777216 % 256)
              (length f.payload % 2 ^ 32 / 65536 % 256)
              (length f.payload % 2 ^ 32 / 256 % 256)
              (length f.payload % 2 ^ 32 % 256)
              (f.session_id.bytes ++ f.payload))
  unfolding encode
  encode-wire small = ground arith

to_u16-small : (m : MessageType) → to_u16 m < 65536
to_u16-small hello = omega arith
to_u16-small _ = omega arith

decode-parts :
    (f : Frame) (m₁ m₂ l₁ l₂ l₃ l₄ : ℕ)
    → from_be16 m₁ m₂ ≡ to_u16 f.message_type
    → from_be32 l₁ l₂ l₃ l₄ ≡ length f.payload
    → length f.session_id.bytes ≡ 16
    → length f.payload ≤ max_payload_len
    → decode (wire m₁ m₂ l₁ l₂ l₃ l₄ (f.session_id.bytes ++ f.payload)) ≡ ok f
decode-parts f m₁ m₂ l₁ l₂ l₃ l₄ hm hl hs small = ground (
  arith,
  decode-wire m₁ m₂ l₁ l₂ l₃ l₄ (f.session_id.bytes ++ f.payload) f.message_type,
  try_from-to_u16 f.message_type,
  take-append 16 f.session_id.bytes f.payload,
  drop-append 16 f.session_id.bytes f.payload,
  take_all (length f.payload) f.payload,
  length-append f.session_id.bytes f.payload,
)

pub encode-parts :
    (f : Frame) (m₁ m₂ l₁ l₂ l₃ l₄ : ℕ) (rest : List ℕ)
    → to_u16 f.message_type ≡ from_be16 m₁ m₂
    → length f.payload ≡ from_be32 l₁ l₂ l₃ l₄
    → AreBytes (m₁ ∷ m₂ ∷ l₁ ∷ l₂ ∷ l₃ ∷ l₄ ∷ [])
    → f.session_id.bytes ++ f.payload ≡ rest
    → length f.payload ≤ max_payload_len
    → encode f ≡ ok (wire m₁ m₂ l₁ l₂ l₃ l₄ rest)
encode-parts f m₁ m₂ l₁ l₂ l₃ l₄ rest hm hl hb hr small =
    let (e₁, e₂) = be16_of_bytes m₁ m₂ (to_u16 f.message_type) (omega arith) (omega arith) hm in
    let (d₁, d₂, d₃, d₄) =
      be32_of_bytes l₁ l₂ l₃ l₄ (length f.payload % 2 ^ 32) (omega arith) (omega arith)
        (omega arith) (omega arith) (omega arith) in
    cc (encode-wire f small)

-- A frame whose session is 16 bytes and whose payload is within the bound is encoded, and `decode`
-- of the bytes gives the frame back.
pub decode-encode :
    (f : Frame)
    → IsFrame f
    → length f.payload ≤ max_payload_len
    → (bytes : List ℕ) × (encode f ≡ ok bytes) × (decode bytes ≡ ok f)
decode-encode f h small = (
  _,
  encode-wire f small,
  decode-parts f _ _ _ _ _ _ (be16-from_be16 (to_u16 f.message_type) (to_u16-small f.message_type))
      (be32-from_be32 (length f.payload % 2 ^ 32) (omega arith) ∙ omega arith) h.session.sixteen
      small,
)

-- `encode` refuses a payload beyond the bound, and only that.
pub encode-err :
    (f : Frame) (e : ProtocolError)
    → (encode f ≡ err e)
      ↔ ((max_payload_len < length f.payload) × (e ≡ payload_too_large (length f.payload)))
unfolding encode
encode-err f e = (λ h. ground arith, λ h. ground arith)
