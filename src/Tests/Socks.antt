-- ===== src/Tests/Socks.antt =====
-- A request, flows that begin and end, and two sockets of which one is chosen.
use quest_vd_wired.Common.{ℕ, ◌≡◌, ◌↔◌, refl, List, [], ◌∷◌, arith, ok}
use quest_vd_wired.Udp.Endpoint.{socket_v4, decode_endpoint, decode_ipv4}
use quest_vd_wired.Socks.Settle.{
  Client, goes_on, reads, accepts, upstream, readable, writable, deadline, begin, Round,
  settle_from, settle_round, take_in, decide, then_event, on_event,
}
use quest_vd_wired.Socks.Heard.{heard, Delivers, settle-Delivers}
use quest_vd_wired.Socks.Request.{connect, SocksRequest, decode, Says, socks_decode-Says}
use quest_vd_wired.Socks.Flows.{begins, forwards, drops, FlowCall}

abbrev client : ℕ → Client
client n = record { socket = n; written = [] }

-- A second socket joins, the Streamer sends, both are written to in part, and the second one answers.
abbrev rounds : List Round
rounds =
    record { joining = client 2 ∷ []; now = 10; event = upstream (reads (1 ∷ 2 ∷ 3 ∷ [])) }
    ∷ record { joining = []; now = 11; event = writable 0 (accepts 3) }
    ∷ record { joining = []; now = 12; event = writable 1 (accepts 2) }
    ∷ record { joining = []; now = 13; event = readable 1 (reads (9 ∷ [])) }
    ∷ []

settle-Delivers_example :
    Delivers
      (heard [] (goes_on (begin 0 500 (client 1))) rounds)
      (settle_from (goes_on (begin 0 500 (client 1))) rounds)
settle-Delivers_example =
    settle-Delivers 0 500 (client 1) rounds refl ((refl, tt), (tt, (tt, (tt, tt))))

heard_three : heard [] (goes_on (begin 0 500 (client 1))) rounds ≡ 1 ∷ 2 ∷ 3 ∷ []
unfolding heard settle_round begin take_in decide then_event on_event
heard_three = refl

abbrev late : Round
late = record { joining = client 2 ∷ []; now = 20000000000; event = deadline }

abbrev request_bytes : List ℕ
request_bytes = 5 ∷ 1 ∷ 0 ∷ 1 ∷ 10 ∷ 0 ∷ 0 ∷ 2 ∷ 0 ∷ 80 ∷ []

abbrev request : SocksRequest
request = record { command = connect; destination = socket_v4 (10 ∷ 0 ∷ 0 ∷ 2 ∷ []) 80 }

socks_decode-Says_example : (decode request_bytes ≡ ok request) ↔ Says request_bytes request
socks_decode-Says_example = socks_decode-Says request_bytes request (ground arith)

accepted_request : decode request_bytes ≡ ok request
unfolding decode decode_endpoint decode_ipv4
accepted_request = refl

abbrev flows : List FlowCall
flows = begins 38810 ∷ begins 80 ∷ begins 38830 ∷ forwards 0 ∷ forwards 0 ∷ drops 1 ∷ []
