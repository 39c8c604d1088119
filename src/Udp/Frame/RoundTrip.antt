-- ===== src/Udp/Frame/RoundTrip.antt =====
-- A frame is read back from its encoding, and only from it.
use quest_vd_wired.Common.{
  ℕ, suc, ◌+◌, ◌-◌, ◌/◌, ◌%◌, ◌≡◌, ◌≤◌, refl, ap, ◌∙◌, List, [], ◌∷◌, ◌++◌, ok, arith, length, take,
  drop, from_be16, be16, be16-from_be16, AreBytes, length-append, take-append, drop-append,
  take_all, append-nil,
}
use quest_vd_wired.Udp.Endpoint.{
  Endpoint, socket_v4, socket_v6, domain, encode_endpoint, decode_endpoint,
}
use quest_vd_wired.Udp.Endpoint.RoundTrip.{IsEndpoint, Fits, decode_endpoint-encode_endpoint}
use quest_vd_wired.Udp.Frame.{
  HevUdpFrame, max_udp_payload, encode, decode, encode_into, encoded_len,
}

unfoldable pub frame : Endpoint → List ℕ → HevUdpFrame
frame e payload = record { endpoint = e; payload = payload }

decode_run :
    (l₁ l₂ h : ℕ) (address payload : List ℕ) (e : Endpoint)
    → h ≡ 3 + length address
    → from_be16 l₁ l₂ ≡ length payload
    → length payload ≤ max_udp_payload
    → decode_endpoint address ≡ ok (e, length address)
    → decode (l₁ ∷ l₂ ∷ h ∷ (address ++ payload)) ≡ ok (frame e payload)
unfolding decode frame
decode_run l₁ l₂ h address payload e hh hl small d =
    let t : take (h - 3) (address ++ payload) ≡ address =
      take-append (h - 3) address payload (omega arith) in
    let u : drop h (l₁ ∷ l₂ ∷ h ∷ (address ++ payload)) ≡ payload =
      ap (λ m. drop m (l₁ ∷ l₂ ∷ h ∷ (address ++ payload))) {x = h}
        {y = suc (suc (suc (length address)))} (omega arith)
      ∙ drop-append (length address) address payload refl in
    let v =
      take_all (suc (suc (suc (length (address ++ payload)))) - h) payload
        (omega (arith, length-append address payload)) in
    ground (arith, length-append address payload)

pub encode_run :
    (e : Endpoint) (payload address : List ℕ)
    → encode_endpoint e ≡ ok address
    → 3 + length address ≤ 255
    → length payload ≤ max_udp_payload
    → encode (frame e payload)
      ≡ ok (
          (length payload / 256 % 256)
          ∷ (length payload % 256)
          ∷ (3 + length address)
          ∷ (address ++ payload))
unfolding encode frame
encode_run e payload address a h small = ground arith

-- The address leaves room in the one byte that holds the header's length.
abbrev pub IsShort : Endpoint → Type 0
IsShort (domain host port) = length host ≤ 248
IsShort e = Unit {0}

pub length-encode_endpoint :
    (e : Endpoint) (address : List ℕ)
    → IsEndpoint e
    → encode_endpoint e ≡ ok address
    → (3 + length address ≤ 255 → IsShort e) × (IsShort e → 3 + length address ≤ 255)
unfolding encode_endpoint
length-encode_endpoint (socket_v4 octets port) address v h =
    (λ _. tt, λ _. ground (arith, length-append octets (be16 port)))
length-encode_endpoint (socket_v6 octets port flowinfo scope_id) address v h =
    (λ _. tt, λ _. ground (arith, length-append octets (be16 port)))
length-encode_endpoint (domain host port) address v h = (
  λ l. ground (arith, length-append host (be16 port)),
  λ l. ground (arith, length-append host (be16 port)),
)

-- The datagrams that a frame can carry.
pub record IsSendable (f : HevUdpFrame) : Type 0 where
  pub endpoint : IsEndpoint f.endpoint
  pub fits : Fits f.endpoint
  pub is_short : IsShort f.endpoint
  pub are_bytes : AreBytes f.payload
  pub small : length f.payload ≤ max_udp_payload

sendable_round :
    (f : HevUdpFrame)
    → IsSendable f
    → (bytes : List ℕ) × (encode f ≡ ok bytes) × (decode bytes ≡ ok f)
unfolding frame
sendable_round f s =
    let (address, enc, dec) = decode_endpoint-encode_endpoint f.endpoint [] s.endpoint s.fits in
    let fit = (length-encode_endpoint f.endpoint address s.endpoint enc).1 s.is_short in
    (
      _,
      encode_run f.endpoint f.payload address enc fit s.small,
      decode_run _ _ _ address f.payload f.endpoint refl
          (be16-from_be16 (length f.payload) (omega (arith, s.small))) s.small
          (rw append-nil at dec),
    )

-- The flow label and the scope of an IPv6 address have no place in a frame.
unfoldable pub unscoped : Endpoint → Endpoint
unscoped (socket_v6 octets port flowinfo scope_id) = socket_v6 octets port 0 0
unscoped e = e

abbrev pub unscope : HevUdpFrame → HevUdpFrame
unscope f = record f { endpoint = unscoped f.endpoint }

encode-unscoped :
    (e : Endpoint) (payload : List ℕ)
    → encode (frame e payload) ≡ encode (frame (unscoped e) payload)
unfolding encode encode_into encode_endpoint encoded_len frame unscoped
encode-unscoped (socket_v4 octets port) payload = refl
encode-unscoped (socket_v6 octets port flowinfo scope_id) payload = refl
encode-unscoped (domain host port) payload = refl

-- A datagram of at most 65507 bytes for an IPv4 or IPv6 address and port, or for a name of 1 to 248
-- bytes, is framed, and `decode` gives it back without the flow label and the scope of an IPv6 address:
-- so an address that has neither comes back as it was, and one that has a scope comes back without.
pub hev_decode-encode :
    (f : HevUdpFrame)
    → IsSendable (unscope f)
    → (bytes : List ℕ) × (encode f ≡ ok bytes) × (decode bytes ≡ ok (unscope f))
unfolding frame
hev_decode-encode f s =
    let (bytes, enc, dec) = sendable_round (unscope f) s in
    (bytes, encode-unscoped f.endpoint f.payload ∙ enc, dec)
