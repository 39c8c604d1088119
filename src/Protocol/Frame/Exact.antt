-- ===== src/Protocol/Frame/Exact.antt =====
-- `decode` accepts nothing but what `encode` writes.
use quest_vd_wired.Common.{
  ℕ, ◌+◌, ◌/◌, ◌%◌, ◌^◌, ◌≡◌, ◌≢◌, List, ◌∷◌, ◌++◌, ok, IsByte, arith, length, AreBytes, ◌≤◌, ◌<◌,
  take_all, take-append-drop, take, drop, length-take, length-drop, All-take, All-drop, sym, ap,
  subst, ◌∙◌, Outcome-cases, be32-from_be32, ok-injective, inl, inr, from_be32, from_be16,
}
use quest_vd_wired.Protocol.Types.{
  Frame, MessageType, max_payload_len, to_u16, try_from, try_from-ok,
}
use quest_vd_wired.Protocol.Frame.{encode, decode_payload, decode}
use quest_vd_wired.Protocol.Frame.RoundTrip.{IsFrame, wire, encode-wire, encode-parts}

-- What a successful `decode` of twelve bytes and a rest says of them.
record Body (l₁ l₂ l₃ l₄ : ℕ) (rest : List ℕ) (f : Frame) : Type 0 where
  len_ok : from_be32 l₁ l₂ l₃ l₄ ≤ max_payload_len
  rest_ok : length rest ≡ 16 + from_be32 l₁ l₂ l₃ l₄
  session_ok : f.session_id.bytes ≡ take 16 rest
  payload_ok : f.payload ≡ take (from_be32 l₁ l₂ l₃ l₄) (drop 16 rest)

record Header (a₀ a₁ a₂ a₃ a₄ a₅ m₁ m₂ : ℕ) (f : Frame) : Type 0 where
  magic₀ : a₀ ≡ 71
  magic₁ : a₁ ≡ 78
  magic₂ : a₂ ≡ 82
  magic₃ : a₃ ≡ 52
  version_ok : from_be16 a₄ a₅ ≡ 4
  type_ok : to_u16 f.message_type ≡ from_be16 m₁ m₂

module _ (l₁ l₂ l₃ l₄ : ℕ) (rest : List ℕ) (f : Frame) (b : Body l₁ l₂ l₃ l₄ rest f) where
  Body-payload : f.payload ≡ drop 16 rest
  Body-payload =
      b.payload_ok ∙ take_all _ (drop 16 rest) (omega (arith, b.rest_ok, length-drop 16 rest))

  Body-length : length f.payload ≡ from_be32 l₁ l₂ l₃ l₄
  Body-length = ap length Body-payload ∙ omega (arith, b.rest_ok, length-drop 16 rest)

  Body-small : length f.payload ≤ max_payload_len
  Body-small = omega (arith, Body-length, b.len_ok)

  Body-append : f.session_id.bytes ++ f.payload ≡ rest
  Body-append = rw (b.session_ok, Body-payload) (take-append-drop 16 rest)

decode_payload-ok :
    (m : MessageType) (a₀ a₁ a₂ a₃ a₄ a₅ m₁ m₂ l₁ l₂ l₃ l₄ : ℕ) (rest : List ℕ) (f : Frame)
    → decode_payload m (a₀ ∷ a₁ ∷ a₂ ∷ a₃ ∷ a₄ ∷ a₅ ∷ m₁ ∷ m₂ ∷ l₁ ∷ l₂ ∷ l₃ ∷ l₄ ∷ rest) ≡ ok f
    → (f.message_type ≡ m) × Body l₁ l₂ l₃ l₄ rest f
unfolding decode_payload
decode_payload-ok m a₀ a₁ a₂ a₃ a₄ a₅ m₁ m₂ l₁ l₂ l₃ l₄ rest f h = ground arith

decode-ok :
    (a₀ a₁ a₂ a₃ a₄ a₅ m₁ m₂ l₁ l₂ l₃ l₄ : ℕ) (rest : List ℕ) (f : Frame)
    → decode (a₀ ∷ a₁ ∷ a₂ ∷ a₃ ∷ a₄ ∷ a₅ ∷ m₁ ∷ m₂ ∷ l₁ ∷ l₂ ∷ l₃ ∷ l₄ ∷ rest) ≡ ok f
    → Header a₀ a₁ a₂ a₃ a₄ a₅ m₁ m₂ f × Body l₁ l₂ l₃ l₄ rest f
unfolding decode
decode-ok a₀ a₁ a₂ a₃ a₄ a₅ m₁ m₂ l₁ l₂ l₃ l₄ rest f h =
    elim (Outcome-cases (try_from (from_be16 m₁ m₂))) [
      | inl (m, e) ↦ ground (
        arith,
        try_from-ok (from_be16 m₁ m₂) m,
        decode_payload-ok m a₀ a₁ a₂ a₃ a₄ a₅ m₁ m₂ l₁ l₂ l₃ l₄ rest f,
      )
      | inr (inl (x, e)) ↦ ground arith
      | inr (inr e) ↦ ground arith
    ]

short_input : (input : List ℕ) (f : Frame) → length input < 28 → decode input ≢ ok f
unfolding decode
short_input input f h e = ground arith

-- Whatever bytes `decode` accepts are the encoding of the frame that it returns, which is well
-- formed and within the bound.
pub encode-decode :
    (input : List ℕ) (f : Frame)
    → AreBytes input
    → decode input ≡ ok f
    → IsFrame f × (length f.payload ≤ max_payload_len) × (encode f ≡ ok input)
encode-decode (a₀ ∷ a₁ ∷ a₂ ∷ a₃ ∷ a₄ ∷ a₅ ∷ m₁ ∷ m₂ ∷ l₁ ∷ l₂ ∷ l₃ ∷ l₄ ∷ rest) f h e =
    let (hd, bd) = decode-ok a₀ a₁ a₂ a₃ a₄ a₅ m₁ m₂ l₁ l₂ l₃ l₄ rest f e in
    let hr : AreBytes rest =
      All-drop IsByte 12 (a₀ ∷ a₁ ∷ a₂ ∷ a₃ ∷ a₄ ∷ a₅ ∷ m₁ ∷ m₂ ∷ l₁ ∷ l₂ ∷ l₃ ∷ l₄ ∷ rest) h in
    let e₄ : a₄ ≡ 0 = omega (arith, hd.version_ok) in
    let e₅ : a₅ ≡ 4 = omega (arith, hd.version_ok) in
    let small = Body-small l₁ l₂ l₃ l₄ rest f bd in
    let e₁ = length-take 16 rest in
    (
      record {
        session = record {
          sixteen = ap length bd.session_ok ∙ omega (arith, e₁, bd.rest_ok);
          are_bytes = subst AreBytes (sym bd.session_ok) (All-take IsByte 16 rest hr);
        };
        are_bytes =
            subst AreBytes (sym (Body-payload l₁ l₂ l₃ l₄ rest f bd)) (All-drop IsByte 16 rest hr);
      },
      small,
      rw (hd.magic₀, hd.magic₁, hd.magic₂, hd.magic₃, e₄, e₅)
          (encode-parts f m₁ m₂ l₁ l₂ l₃ l₄ rest hd.type_ok (Body-length l₁ l₂ l₃ l₄ rest f bd)
            (omega arith) (Body-append l₁ l₂ l₃ l₄ rest f bd) small),
    )
encode-decode input f h e = absurd (short_input input f (omega arith) e)

-- The parts of an input that `decode` accepts: the header's words, the session and the payload.
pub decode-shape :
    (input : List ℕ) (f : Frame)
    → AreBytes input
    → decode input ≡ ok f
    → (m₁ m₂ l₁ l₂ l₃ l₄ : ℕ) × (session body : List ℕ) × (input
        ≡ wire m₁ m₂ l₁ l₂ l₃ l₄ session ++ body)
      × (length session ≡ 16)
      × (length body ≡ from_be32 l₁ l₂ l₃ l₄)
      × (from_be32 l₁ l₂ l₃ l₄ ≤ max_payload_len)
decode-shape input f hb e =
    let (valid, small, enc) = encode-decode input f hb e in
    let n = length f.payload % 2 ^ 32 in
    let back : from_be32 (n / 16777216 % 256) (n / 65536 % 256) (n / 256 % 256) (n % 256)
        ≡ length f.payload =
      be32-from_be32 n (omega arith) ∙ omega arith in
    (
      to_u16 f.message_type / 256 % 256,
      to_u16 f.message_type % 256,
      n / 16777216 % 256,
      n / 65536 % 256,
      n / 256 % 256,
      n % 256,
      f.session_id.bytes,
      f.payload,
      ok-injective (sym enc ∙ encode-wire f small),
      valid.session.sixteen,
      sym back,
      omega (arith, back),
    )
