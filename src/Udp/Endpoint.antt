-- ===== src/Udp/Endpoint.antt =====
-- `Endpoint` and its SOCKS address encoding. An address is its octets, and a domain name the UTF-8
-- bytes of its `String`.
pub mod RoundTrip
pub mod Exact
use quest_vd_wired.Common.{
  ℕ, ◌+◌, List, [], ◌∷◌, ◌++◌, Outcome, ok, err, ◌>>=◌, ◌>>◌, reject_if, index, slice, ltb, ◌==◌,
  ◌||◌, ◌%◌, not, is_utf8, be16, from_be16, length, if◌then◌else◌,
}

-- An IPv6 socket address has a flow label and a scope besides, which the encoding leaves out.
pub data Endpoint : Type 0 where
  socket_v4 : (octets : List ℕ) (port : ℕ) → Endpoint
  socket_v6 : (octets : List ℕ) (port flowinfo scope_id : ℕ) → Endpoint
  domain : (host : List ℕ) (port : ℕ) → Endpoint

-- `HevFrameError`, which the endpoint's errors belong to.
pub data HevFrameError : Type 0 where
  truncated : HevFrameError
  truncated_address : HevFrameError
  payload_too_large : ℕ → HevFrameError
  invalid_header_length : ℕ → HevFrameError
  header_too_large : ℕ → HevFrameError
  length_mismatch : ℕ → ℕ → HevFrameError
  unsupported_address_type : ℕ → HevFrameError
  invalid_domain_length : ℕ → HevFrameError
  invalid_domain : HevFrameError
  io : HevFrameError

abbrev pub socks_atyp_ipv4 : ℕ
socks_atyp_ipv4 = 1

abbrev pub socks_atyp_domain : ℕ
socks_atyp_domain = 3

abbrev pub socks_atyp_ipv6 : ℕ
socks_atyp_ipv6 = 4

abbrev pub max_domain_len : ℕ
max_domain_len = 255

unfoldable pub encode_endpoint : Endpoint → Outcome HevFrameError (List ℕ)
encode_endpoint (socket_v4 octets port) = ok (socks_atyp_ipv4 ∷ (octets ++ be16 port))
encode_endpoint (socket_v6 octets port flowinfo scope_id) =
    ok (socks_atyp_ipv6 ∷ (octets ++ be16 port))
encode_endpoint (domain host port) = do
  reject_if (length host == 0 || ltb max_domain_len (length host))
      (invalid_domain_length (length host))
  ok (socks_atyp_domain ∷ (length host % 256) ∷ (host ++ be16 port))

-- The three branches of `decode_endpoint`.
unfoldable pub decode_ipv4 : List ℕ → Outcome HevFrameError (Endpoint × ℕ)
decode_ipv4 input = do
  reject_if (ltb (length input) 7) truncated_address
  a ← index input 1
  b ← index input 2
  c ← index input 3
  d ← index input 4
  p ← index input 5
  q ← index input 6
  ok (socket_v4 (a ∷ b ∷ c ∷ d ∷ []) (from_be16 p q), 7)

unfoldable pub decode_ipv6 : List ℕ → Outcome HevFrameError (Endpoint × ℕ)
decode_ipv6 input = do
  reject_if (ltb (length input) 19) truncated_address
  octets ← slice input 1 17
  p ← index input 17
  q ← index input 18
  ok (socket_v6 octets (from_be16 p q) 0 0, 19)

unfoldable pub decode_domain : List ℕ → Outcome HevFrameError (Endpoint × ℕ)
decode_domain input = do
  reject_if (ltb (length input) 2) truncated_address
  n ← index input 1
  reject_if (n == 0 || (ltb max_domain_len n || ltb (length input) (n + 4)))
      (invalid_domain_length n)
  host ← slice input 2 (2 + n)
  reject_if (not (is_utf8 host)) invalid_domain
  p ← index input (2 + n)
  q ← index input (2 + n + 1)
  ok (domain host (from_be16 p q), n + 4)

unfoldable pub decode_endpoint : List ℕ → Outcome HevFrameError (Endpoint × ℕ)
decode_endpoint input = do
  reject_if (ltb (length input) 1) truncated_address
  atyp ← index input 0
  if atyp == socks_atyp_ipv4
      then decode_ipv4 input
      else (if atyp == socks_atyp_ipv6
          then decode_ipv6 input
          else (if atyp == socks_atyp_domain
              then decode_domain input
              else err (unsupported_address_type atyp)))
