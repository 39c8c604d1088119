-- ===== src/Udp/Frame/Exact.antt =====
-- What `decode` accepts is an encoding of a datagram.
use quest_vd_wired.Common.{
  ℕ, suc, inl, inr, subst, Outcome-cases, ◌+◌, ◌-◌, ◌≡◌, ◌≢◌, refl, ◌≤◌, ◌<◌, sym, ap, ◌∙◌, List,
  ◌∷◌, ok, arith, length, take, drop, from_be16, be16_of_bytes, AreBytes, IsByte, All-take,
  All-drop, length-take, length-drop, take_all, take-append-drop,
}
use quest_vd_wired.Udp.Endpoint.{decode_endpoint}
use quest_vd_wired.Udp.Endpoint.Exact.{decode_endpoint-ReadFrom}
use quest_vd_wired.Udp.Frame.{HevUdpFrame, max_udp_payload, encode, decode}
use quest_vd_wired.Udp.Frame.RoundTrip.{frame, encode_run, IsSendable, length-encode_endpoint}

-- What a successful `decode` says of its input, `k` bytes of address and the payload.
decode_header :
    (l₁ l₂ h : ℕ) (rest : List ℕ) (f : HevUdpFrame) → decode (l₁ ∷ l₂ ∷ h ∷ rest) ≡ ok f → 3 ≤ h
unfolding decode
decode_header l₁ l₂ h rest f e = ground arith

record Parts (l₁ l₂ k : ℕ) (rest : List ℕ) (f : HevUdpFrame) : Type 0 where
  small : from_be16 l₁ l₂ ≤ max_udp_payload
  whole : length rest ≡ k + from_be16 l₁ l₂
  address_ok : decode_endpoint (take k rest) ≡ ok (f.endpoint, k)
  payload_ok : f.payload ≡ drop k rest

decode-Parts :
    (l₁ l₂ k : ℕ) (rest : List ℕ) (f : HevUdpFrame)
    → decode (l₁ ∷ l₂ ∷ suc (suc (suc k)) ∷ rest) ≡ ok f
    → Parts l₁ l₂ k rest f
unfolding decode
decode-Parts l₁ l₂ k rest f e = elim (Outcome-cases (decode_endpoint (take k rest))) [
  | inl ((x, c), d) ↦ ground (
    arith,
    take_all (suc (suc (suc (length rest))) - suc (suc (suc k))) (drop k rest),
    length-drop k rest,
  )
  | inr (inl (x, d)) ↦ absurd (ground arith)
  | inr (inr d) ↦ absurd (ground arith)
]

short_input : (input : List ℕ) (f : HevUdpFrame) → length input < 3 → decode input ≢ ok f
unfolding decode
short_input input f h e = ground arith

-- Of a list of bytes, whatever `decode` accepts is the encoding of the datagram that it returns, which
-- can be sent and has neither flow label nor scope.
pub hev_encode-decode :
    (input : List ℕ) (f : HevUdpFrame)
    → AreBytes input
    → decode input ≡ ok f
    → IsSendable f × (encode f ≡ ok input)
unfolding frame
hev_encode-decode (l₁ ∷ l₂ ∷ suc (suc (suc k)) ∷ rest) f (b₁, (b₂, (bh, hb))) e =
    let p = decode-Parts l₁ l₂ k rest f e in
    let r =
      decode_endpoint-ReadFrom (take k rest) f.endpoint k (All-take IsByte k rest hb)
        p.address_ok in
    let size : length (take k rest) ≡ k = omega (arith, length-take k rest, p.whole) in
    let enc = r.encoded ∙ ap ok (take_all k (take k rest) (omega arith)) in
    let len : length f.payload ≡ from_be16 l₁ l₂ =
      ap length p.payload_ok ∙ omega (arith, length-drop k rest, p.whole) in
    let (e₁, e₂) = be16_of_bytes l₁ l₂ (length f.payload) b₁ b₂ len in
    (
      record {
        endpoint = r.valid;
        fits = r.fits;
        is_short = (length-encode_endpoint f.endpoint (take k rest) r.valid enc).0 (omega arith);
        are_bytes = subst AreBytes (sym p.payload_ok) (All-drop IsByte k rest hb);
        small = omega (arith, len, p.small);
      },
      encode_run f.endpoint f.payload (take k rest) enc (omega arith) (omega (arith, len, p.small))
          ∙ rw (e₁, e₂, p.payload_ok, size, take-append-drop k rest) (ground arith),
    )
hev_encode-decode (l₁ ∷ l₂ ∷ h ∷ rest) f hb e =
    absurd (omega (arith, decode_header l₁ l₂ h rest f e))
hev_encode-decode input f hb e = absurd (short_input input f (omega arith) e)

-- An input that `decode` accepts: a payload length within the bound, a header length of three or
-- more, and behind them as many bytes as these say.
pub decode-prefix :
    (input : List ℕ) (f : HevUdpFrame)
    → decode input ≡ ok f
    → (l₁ : ℕ) × (l₂ : ℕ) × (k : ℕ) × (body : List ℕ) × (input ≡ l₁ ∷ l₂ ∷ suc (suc (suc k)) ∷ body)
      × (from_be16 l₁ l₂ ≤ max_udp_payload)
      × (length body ≡ k + from_be16 l₁ l₂)
decode-prefix (l₁ ∷ l₂ ∷ suc (suc (suc k)) ∷ rest) f e =
    let p = decode-Parts l₁ l₂ k rest f e in (l₁, l₂, k, rest, refl, p.small, p.whole)
decode-prefix (l₁ ∷ l₂ ∷ h ∷ rest) f e = absurd (omega (arith, decode_header l₁ l₂ h rest f e))
decode-prefix input f e = absurd (short_input input f (omega arith) e)
