-- ===== src/Tests/Udp.antt =====
-- Datagrams, endpoints and the queue budget at concrete inputs.
use quest_vd_wired.Common.{
  true, ℕ, ◌≡◌, ◌≤◌, ◌<◌, refl, List, [], ◌∷◌, ◌++◌, arith, length, ok, is_utf8, Option, some, none,
  take, drop, leb, if◌then◌else◌, replicate,
}
use quest_vd_wired.Udp.Endpoint.{
  Endpoint, domain, socket_v4, socket_v6, decode_endpoint, decode_domain,
}
use quest_vd_wired.Udp.Endpoint.RoundTrip.{IsEndpoint, Fits}
use quest_vd_wired.Udp.Frame.{HevUdpFrame, encode, decode}
use quest_vd_wired.Udp.Frame.Exact.{hev_encode-decode}
use quest_vd_wired.Udp.Frame.RoundTrip.{IsSendable, unscoped, unscope, hev_decode-encode}
use quest_vd_wired.Protocol.Frame.Stream.{Reader}
use quest_vd_wired.Udp.Budget.{
  new, Move, reserves, goes_global, drops, drops_global, undoes, step, run, try_reserve, remove,
  reserve_association, reserve_global,
}
use quest_vd_wired.Udp.Budget.Accounted.{IsAccounted, budget_run-IsAccounted}
use quest_vd_wired.Udp.Writer.{Reply, Writer}

abbrev name : Endpoint
name = domain (b'v' ∷ b'd' ∷ []) 443

abbrev name_bytes : List ℕ
name_bytes = 3 ∷ 2 ∷ b'v' ∷ b'd' ∷ 1 ∷ 187 ∷ []

abbrev datagram : HevUdpFrame
datagram = record { endpoint = name; payload = 7 ∷ 8 ∷ [] }

abbrev datagram_bytes : List ℕ
datagram_bytes = 0 ∷ 2 ∷ 9 ∷ (name_bytes ++ (7 ∷ 8 ∷ []))

name_decoded : decode_endpoint (name_bytes ++ (9 ∷ [])) ≡ ok (name, 6)
unfolding decode_endpoint decode_domain is_utf8
name_decoded = refl

datagram_decoded : decode datagram_bytes ≡ ok datagram
unfolding decode decode_endpoint decode_domain is_utf8
datagram_decoded = refl

name-IsEndpoint : IsEndpoint name
unfolding is_utf8
name-IsEndpoint = ground arith

name-Fits : Fits name
unfolding is_utf8
name-Fits = ground arith

datagram-IsSendable : IsSendable datagram
datagram-IsSendable = record {
  endpoint = name-IsEndpoint;
  fits = name-Fits;
  is_short = omega arith;
  are_bytes = omega arith;
  small = omega arith;
}

hev_encode-decode_example : IsSendable datagram × (encode datagram ≡ ok datagram_bytes)
hev_encode-decode_example = hev_encode-decode datagram_bytes datagram (omega arith) datagram_decoded

-- A link-local address with its interface.
abbrev scoped : HevUdpFrame
scoped = record { endpoint = socket_v6 (254 ∷ 128 ∷ replicate 14 1) 5353 0 3; payload = 1 ∷ 2 ∷ [] }

scoped-IsSendable : IsSendable (unscope scoped)
unfolding unscoped
scoped-IsSendable = record {
  endpoint = (refl, omega arith, omega arith);
  fits = (refl, refl);
  is_short = tt;
  are_bytes = omega arith;
  small = omega arith;
}

hev_decode-encode_example :
    (bytes : List ℕ) × (encode scoped ≡ ok bytes) × (decode bytes ≡ ok (unscope scoped))
hev_decode-encode_example = hev_decode-encode scoped scoped-IsSendable

-- Two associations race for a global budget that holds one of them.
abbrev race : List Move
race =
    reserves 1 100
    ∷ reserves 2 100
    ∷ goes_global 0
    ∷ goes_global 0
    ∷ undoes 0
    ∷ drops 0
    ∷ drops_global 0
    ∷ []

one_wins :
    (run (new 200 150) (reserves 1 100 ∷ reserves 2 100 ∷ goes_global 0 ∷ goes_global 0 ∷ [])).held
    ≡ (2, 100) ∷ []
unfolding run step try_reserve remove reserve_association reserve_global
one_wins = refl

budget_run-IsAccounted_example : IsAccounted (run (new 200 150) race)
budget_run-IsAccounted_example = budget_run-IsAccounted 200 150 race (omega arith) (omega arith)

-- A stream that is the list of the bytes that are still to come.
abbrev read_bytes : ℕ → List ℕ → Option (List ℕ × List ℕ)
read_bytes n s = if leb n (length s) then some (take n s, drop n s) else none

read_bytes-enough : (n : ℕ) (s : List ℕ) → n ≤ length s → read_bytes n s ≡ some (take n s, drop n s)
read_bytes-enough n s h = ground arith

read_bytes-short : (n : ℕ) (s : List ℕ) → length s < n → read_bytes n s ≡ none
read_bytes-short n s h = ground arith

abbrev bytes_reader : Reader
bytes_reader = record {
  Stream = List ℕ;
  pending = λ s. s;
  read_exact = read_bytes;
  enough = λ n s h. (drop n s, read_bytes-enough n s h, refl);
  short = read_bytes-short;
}

abbrev a_reply : Reply
a_reply = record {
  frame = record { endpoint = socket_v4 (10 ∷ 0 ∷ 0 ∷ 2 ∷ []) 80; payload = 1 ∷ 2 ∷ [] };
  queue_age = 5;
  granted = true;
}

abbrev idle_writer : Writer
idle_writer = record { batch = []; writes = []; dropped_queue_age = 0; dropped_queue_full = 0 }
