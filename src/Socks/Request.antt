-- ===== src/Socks/Request.antt =====
-- `SocksRequest::decode` and the policy of commands.
use quest_vd_wired.Common.{
  ◌↔◌, ℕ, zero, suc, ◌+◌, ◌≡◌, refl, ap, ◌∙◌, sym, Bool, true, false, ◌||◌, not, List, [], ◌∷◌,
  String, ltb, ◌==◌, length, drop, take, AreBytes, if◌then◌else◌, Outcome, ok, err, panic, ◌>>=◌,
  ◌>>◌, reject_if, index, arith, append-nil, ok-injective, subst,
}
use quest_vd_wired.Udp.Endpoint.{Endpoint, HevFrameError, decode_endpoint, encode_endpoint}
use quest_vd_wired.Udp.Endpoint.RoundTrip.{IsEndpoint, Fits, decode_endpoint-encode_endpoint}
use quest_vd_wired.Udp.Endpoint.Exact.{decode_endpoint-ReadFrom}

pub data SocksCommand : Type 0 where
  connect fwd_udp : SocksCommand

pub data SocksCommandPolicy : Type 0 where
  connect_only fwd_udp_only : SocksCommandPolicy

abbrev pub allows : SocksCommandPolicy → SocksCommand → Bool
allows connect_only connect = true
allows fwd_udp_only fwd_udp = true
allows policy command = false

pub record SocksRequest : Type 0 where
  pub command : SocksCommand
  pub destination : Endpoint

-- The errors that the parser of requests gives.
pub data SocksError : Type 0 where
  malformed : String → SocksError
  unsupported_command : ℕ → SocksError
  address : HevFrameError → SocksError

abbrev pub socks_version : ℕ
socks_version = 5

abbrev pub cmd_connect : ℕ
cmd_connect = 1

abbrev pub cmd_fwd_udp : ℕ
cmd_fwd_udp = 5

unfoldable pub command_of : ℕ → Outcome SocksError SocksCommand
command_of c =
    if c == cmd_connect
    then ok connect
    else if c == cmd_fwd_udp
    then ok fwd_udp
    else err (unsupported_command c)

-- `?` on the error of the endpoint.
unfoldable pub from_endpoint :
    Outcome HevFrameError (Endpoint × ℕ) → Outcome SocksError (Endpoint × ℕ)
from_endpoint (ok x) = ok x
from_endpoint (err e) = err (address e)
from_endpoint panic = panic

abbrev pub whole_request : List ℕ → SocksCommand → Endpoint × ℕ → Outcome SocksError SocksRequest
whole_request input command (destination, consumed) =
    if consumed + 3 == length input
    then ok (record { command = command; destination = destination })
    else err (malformed "trailing request bytes")

unfoldable pub decode : List ℕ → Outcome SocksError SocksRequest
unfolding command_of from_endpoint
decode input = do
  reject_if (ltb (length input) 4) (malformed "truncated request")
  v ← index input 0
  c ← index input 1
  r ← index input 2
  reject_if (not (v == socks_version) || not (r == 0))
      (malformed "invalid version or reserved byte")
  command ← command_of c
  x ← from_endpoint (decode_endpoint (drop 3 input))
  whole_request input command x

-- A request as RFC 1928 and its extension for UDP lay it out.
abbrev pub code : SocksCommand → ℕ
code connect = 1
code fwd_udp = 5

-- The bytes say this request.
pub record Says (input : List ℕ) (r : SocksRequest) : Type 0 where
  pub tail : List ℕ
  pub layout : input ≡ 5 ∷ code r.command ∷ 0 ∷ tail
  pub endpoint : encode_endpoint r.destination ≡ ok tail
  pub valid : IsEndpoint r.destination
  pub fits : Fits r.destination

take_all_of : (n : ℕ) (xs : List ℕ) → n ≡ length xs → take n xs ≡ xs
take_all_of zero [] h = refl
take_all_of zero (x ∷ xs) h = absurd (omega arith)
take_all_of (suc n) [] h = absurd (omega arith)
take_all_of (suc n) (x ∷ xs) h = ap (λ z. x ∷ z) (take_all_of n xs (omega arith))

-- From the command on.
after_command :
    (c : ℕ) (rest : List ℕ) (r : SocksRequest)
    → AreBytes rest
    → decode (5 ∷ c ∷ 0 ∷ rest) ≡ ok r
    → (c ≡ code r.command) × (decode_endpoint rest ≡ ok (r.destination, length rest))
unfolding decode command_of from_endpoint
after_command c rest r hb h = ground arith

-- The first three bytes of a request that is accepted.
first_three :
    (input : List ℕ) (r : SocksRequest)
    → decode input ≡ ok r
    → (c : ℕ) × (rest : List ℕ) × (input ≡ 5 ∷ c ∷ 0 ∷ rest)
unfolding decode
first_three [] r h = absurd (ground arith)
first_three (v ∷ []) r h = absurd (ground arith)
first_three (v ∷ c ∷ []) r h = absurd (ground arith)
first_three (v ∷ c ∷ z ∷ rest) r h = (c, rest, ground arith)

request-Says :
    (c : ℕ) (rest : List ℕ) (r : SocksRequest)
    → AreBytes rest
    → decode (5 ∷ c ∷ 0 ∷ rest) ≡ ok r
    → Says (5 ∷ c ∷ 0 ∷ rest) r
request-Says c rest r hb h =
    let (k, d) = after_command c rest r hb h in
    let f = decode_endpoint-ReadFrom rest r.destination (length rest) hb d in
    record {
      tail = rest;
      layout = ap (λ z. 5 ∷ z ∷ 0 ∷ rest) k;
      endpoint = f.encoded ∙ ap ok (take_all_of (length rest) rest refl);
      valid = f.valid;
      fits = f.fits;
    }

accepts_tail :
    (k : SocksCommand) (d : Endpoint) (tail : List ℕ)
    → decode_endpoint tail ≡ ok (d, length tail)
    → decode (5 ∷ code k ∷ 0 ∷ tail) ≡ ok (record { command = k; destination = d })
unfolding decode command_of from_endpoint
accepts_tail k d [] h = absurd (unfold decode_endpoint in ground arith)
accepts_tail k d (x ∷ xs) h = ground (arith, h)

tail_decodes :
    (d : Endpoint) (tail : List ℕ)
    → IsEndpoint d
    → Fits d
    → encode_endpoint d ≡ ok tail
    → decode_endpoint tail ≡ ok (d, length tail)
tail_decodes d tail v f e =
    let (bytes, q, k) = decode_endpoint-encode_endpoint d [] v f in
    let same = ok-injective (sym q ∙ e) in
    ap decode_endpoint (sym same ∙ sym (append-nil bytes)) ∙ (k ∙ ap (λ z. ok (d, length z)) same)

accepted-Says : (input : List ℕ) (r : SocksRequest) → Says input r → decode input ≡ ok r
accepted-Says input r h =
    ap decode h.layout
    ∙ accepts_tail r.command r.destination h.tail
        (tail_decodes r.destination h.tail h.valid h.fits h.endpoint)

rejected_others :
    (input : List ℕ) (r : SocksRequest) → AreBytes input → decode input ≡ ok r → Says input r
rejected_others input r hb h =
    let (c, rest, e) = first_three input r h in
    let (b₀, (b₁, (b₂, bs))) = subst AreBytes e hb in
    subst (λ z. Says z r) (sym e) (request-Says c rest r bs (ap decode (sym e) ∙ h))

-- The parser accepts, with this result, exactly the bytes that are a request in the layout of RFC 1928: the
-- version, the command, a zero, and the encoded destination, with nothing behind it.
pub socks_decode-Says :
    (input : List ℕ) (r : SocksRequest) → AreBytes input → (decode input ≡ ok r) ↔ Says input r
socks_decode-Says input r hb = (rejected_others input r hb, accepted-Says input r)
