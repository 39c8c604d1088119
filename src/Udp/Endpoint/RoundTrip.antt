-- ===== src/Udp/Endpoint/RoundTrip.antt =====
-- An endpoint is read back from its encoding, and only from it.
use quest_vd_wired.Common.{
  ℕ, ◌+◌, ◌/◌, ◌%◌, ◌≡◌, ◌≤◌, ◌<◌, refl, true, List, [], ◌∷◌, ◌++◌, ok, arith, length, take, drop,
  is_utf8, be16, from_be16, AreBytes, length-append, take-append, ◌-◌, some, ap, ◌∙◌, append_assoc,
  get_elem?, get_elem?-append, be16-from_be16,
}
use quest_vd_wired.Udp.Endpoint.{
  Endpoint, socket_v4, socket_v6, domain, encode_endpoint, decode_ipv4, decode_ipv6, decode_domain,
  decode_endpoint,
}

-- What the Rust types say of an endpoint's parts.
abbrev pub IsPort : ℕ → Type 0
IsPort p = p < 65536

abbrev pub IsEndpoint : Endpoint → Type 0
IsEndpoint (socket_v4 octets port) = (length octets ≡ 4) × AreBytes octets × IsPort port
IsEndpoint (socket_v6 octets port flowinfo scope_id) =
    (length octets ≡ 16) × AreBytes octets × IsPort port
IsEndpoint (domain host port) = (is_utf8 host ≡ true) × AreBytes host × IsPort port

-- What the encoding can hold: no flow label or scope, and a domain name of 1 to 255 bytes.
abbrev pub Fits : Endpoint → Type 0
Fits (socket_v4 octets port) = Unit {0}
Fits (socket_v6 octets port flowinfo scope_id) = (flowinfo ≡ 0) × (scope_id ≡ 0)
Fits (domain host port) = (0 < length host) × (length host ≤ 255)

v4_round :
    (octets : List ℕ) (p q : ℕ) (rest : List ℕ)
    → length octets ≡ 4
    → decode_endpoint (1 ∷ (octets ++ p ∷ q ∷ rest)) ≡ ok (socket_v4 octets (from_be16 p q), 7)
unfolding decode_endpoint decode_ipv4
v4_round (a ∷ b ∷ c ∷ d ∷ []) p q rest h = ground arith
v4_round octets p q rest h = absurd (omega arith)

v6_round :
    (octets : List ℕ) (p q : ℕ) (rest : List ℕ)
    → length octets ≡ 16
    → decode_endpoint (4 ∷ (octets ++ p ∷ q ∷ rest)) ≡ ok (socket_v6 octets (from_be16 p q) 0 0, 19)
unfolding decode_endpoint decode_ipv6
v6_round octets p q rest h = ground (
  arith,
  length-append octets (p ∷ q ∷ rest),
  take-append 16 octets (p ∷ q ∷ rest),
  get_elem?-append 16 octets (p ∷ q ∷ rest) 0,
  get_elem?-append 16 octets (p ∷ q ∷ rest) 1,
)

decode_domain_run :
    (input : List ℕ) (n : ℕ) (host : List ℕ) (p q : ℕ)
    → get_elem? input 1 ≡ some n
    → 0 < n
    → n ≤ 255
    → n + 4 ≤ length input
    → take (2 + n - 2) (drop 2 input) ≡ host
    → is_utf8 host ≡ true
    → get_elem? input (2 + n) ≡ some p
    → get_elem? input (2 + n + 1) ≡ some q
    → decode_domain input ≡ ok (domain host (from_be16 p q), n + 4)
unfolding decode_domain
decode_domain_run input n host p q e₁ h k l t u e₂ e₃ = ground arith

domain_round :
    (host : List ℕ) (p q : ℕ) (rest : List ℕ)
    → 0 < length host
    → length host ≤ 255
    → is_utf8 host ≡ true
    → decode_endpoint (3 ∷ length host ∷ (host ++ p ∷ q ∷ rest))
      ≡ ok (domain host (from_be16 p q), length host + 4)
unfolding decode_endpoint
domain_round host p q rest h k u =
    let n = length host in
    let front : List ℕ = 3 ∷ n ∷ host in
    let e₂ = get_elem?-append (2 + n) front (p ∷ q ∷ rest) 0 (omega arith) in
    let e₃ = get_elem?-append (2 + n) front (p ∷ q ∷ rest) 1 (omega arith) in
    ground (
      arith,
      decode_domain_run (front ++ p ∷ q ∷ rest) n host p q refl h k
          (omega (arith, length-append host (p ∷ q ∷ rest)))
          (take-append (2 + n - 2) host (p ∷ q ∷ rest) (omega arith)) u
          (ap (get_elem? (front ++ p ∷ q ∷ rest)) {x = 2 + n} {y = 2 + n + 0} (omega arith) ∙ e₂)
          e₃,
    )

-- An endpoint that the encoding can hold is encoded, and whatever follows the encoding, decoding
-- gives the endpoint back with the number of bytes that it takes.
pub decode_endpoint-encode_endpoint :
    (e : Endpoint) (rest : List ℕ)
    → IsEndpoint e
    → Fits e
    → (bytes : List ℕ) × (encode_endpoint e ≡ ok bytes)
      × (decode_endpoint (bytes ++ rest) ≡ ok (e, length bytes))
unfolding encode_endpoint
decode_endpoint-encode_endpoint (socket_v4 octets port) rest h f = (
  _,
  refl,
  rw append_assoc (
      ground (
        arith,
        v4_round octets (port / 256 % 256) (port % 256) rest,
        length-append octets (be16 port),
        be16-from_be16 port,
      )),
)
decode_endpoint-encode_endpoint (socket_v6 octets port flowinfo scope_id) rest h f = (
  _,
  refl,
  rw append_assoc (
      ground (
        arith,
        v6_round octets (port / 256 % 256) (port % 256) rest,
        length-append octets (be16 port),
        be16-from_be16 port,
      )),
)
decode_endpoint-encode_endpoint (domain host port) rest h f = (
  3 ∷ (length host % 256) ∷ (host ++ be16 port),
  ground arith,
  rw append_assoc (
      ground (
        arith,
        domain_round host (port / 256 % 256) (port % 256) rest,
        length-append host (be16 port),
        be16-from_be16 port,
      )),
)
