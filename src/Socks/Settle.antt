-- ===== src/Socks/Settle.antt =====
-- `settle_candidates`: Virtual Desktop opens several sockets for one flow, and the loop finds out which it uses.
use quest_vd_wired.Common.{
  ℕ, zero, suc, ◌+◌, ◌-◌, ◌*◌, Option, none, some, Bool, true, false, ◌&&◌, ◌||◌, not, List, [],
  ◌∷◌, ◌++◌, String, ltb, leb, min, length, take, drop, get_elem?, if◌then◌else◌,
}
use quest_vd_wired.Socks.Observation.{
  FlowTerminal, quest, streamer, read_eof, read_error, record_terminal,
}

-- A client's socket: its number, and the bytes that were written to it.
pub record Client : Type 0 where
  pub socket : ℕ
  pub written : List ℕ

pub record Candidate : Type 0 where
  pub client : Client
  pub arrival : ℕ
  pub delivered : ℕ

pub record ChosenCandidate : Type 0 where
  pub client : Client
  pub arrival : ℕ
  pub client_prefix : List ℕ
  pub delivered : ℕ
  pub upstream_suffix : List ℕ

pub record CandidateSettlement : Type 0 where
  pub arrivals : ℕ
  pub outcome : String
  pub chosen : Option ChosenCandidate

-- Nanoseconds.
abbrev pub candidate_decision_timeout : ℕ
candidate_decision_timeout = 250 * 1000000

abbrev pub candidate_unresolved_limit : ℕ
candidate_unresolved_limit = 10 * 1000000000

abbrev pub candidate_replay_limit : ℕ
candidate_replay_limit = 64 * 1024

abbrev pub buffer_size : ℕ
buffer_size = 16 * 1024

-- The variables of the loop, and what it has observed.
pub record Settling : Type 0 where
  pub join_deadline : ℕ
  pub give_up : ℕ
  pub candidates : List Candidate
  pub arrivals : ℕ
  pub replay : List ℕ
  pub upstream_closed : Bool
  pub decision_deadline : Option ℕ
  pub observed : Option FlowTerminal

-- The loop returns, with its variables at that moment, or it goes on, or an index is out of bounds.
pub data Turn : Type 0 where
  settled : CandidateSettlement → Settling → Turn
  goes_on : Settling → Turn
  panics : Turn

-- What `try_read` and `try_write` say.
pub data Read : Type 0 where
  reads : List ℕ → Read
  read_blocks read_fails : Read

pub data Write : Type 0 where
  accepts : ℕ → Write
  write_blocks write_fails : Write

pub data CandidateEvent : Type 0 where
  joined deadline : CandidateEvent
  upstream : Read → CandidateEvent
  readable : ℕ → Read → CandidateEvent
  writable : ℕ → Write → CandidateEvent

unfoldable pub begin : ℕ → ℕ → Client → Settling
begin now join_deadline first = record {
  join_deadline = join_deadline;
  give_up = now + candidate_unresolved_limit;
  candidates = record { client = first; arrival = 0; delivered = 0 } ∷ [];
  arrivals = 1;
  replay = [];
  upstream_closed = false;
  decision_deadline = none;
  observed = none;
}

unfoldable pub remove_at : List Candidate → ℕ → List Candidate
remove_at [] i = []
remove_at (c ∷ cs) zero = cs
remove_at (c ∷ cs) (suc i) = c ∷ remove_at cs i

abbrev pub chosen_from : Settling → List ℕ → Candidate → ChosenCandidate
chosen_from s prefix c = record {
  client = c.client;
  arrival = c.arrival;
  client_prefix = prefix;
  delivered = c.delivered;
  upstream_suffix = drop c.delivered s.replay;
}

-- `choose_candidate`
unfoldable pub choose_candidate : Settling → ℕ → List ℕ → String → Turn
choose_candidate s i prefix outcome = elim (get_elem? s.candidates i) [
  | none ↦ panics
  | some c ↦
      if leb c.delivered (length s.replay)
      then settled
          (record {
            arrivals = s.arrivals;
            outcome = outcome;
            chosen = some (chosen_from s prefix c);
          })
          s
      else panics
]

-- The candidates that joined, in their order.
unfoldable pub take_in : Settling → List Client → Settling
take_in s [] = s
take_in s (client ∷ clients) =
    take_in
      (record s {
        candidates =
            s.candidates ++ (record { client = client; arrival = s.arrivals; delivered = 0 } ∷ []);
        arrivals = s.arrivals + 1;
      })
      clients

abbrev pub is_exhausted : Settling → Bool
is_exhausted s = s.upstream_closed || leb candidate_replay_limit (length s.replay)

-- `decision_deadline.get_or_insert(now + CANDIDATE_DECISION_TIMEOUT)`
abbrev pub or_insert : Option ℕ → ℕ → Option ℕ
or_insert none d = some d
or_insert (some e) d = some e

abbrev pub note_decision : Settling → ℕ → Settling
note_decision s now =
    if is_exhausted s
    then record s {
      decision_deadline = or_insert s.decision_deadline (now + candidate_decision_timeout);
    }
    else s

-- `decision_deadline.map_or(give_up, |decision| decision.min(give_up))`
abbrev pub final_deadline : Option ℕ → ℕ → ℕ
final_deadline none give_up = give_up
final_deadline (some d) give_up = min d give_up

abbrev pub close_all : Settling → Turn
close_all s =
    settled (record { arrivals = s.arrivals; outcome = "all_closed"; chosen = none })
      (record s { observed = record_terminal s.observed quest read_eof })

-- The match on the number of candidates.
unfoldable pub decide : Settling → ℕ → Turn
unfolding choose_candidate
decide s now = elim s.candidates [
  | [] ↦ if ltb now s.join_deadline then goes_on s else close_all s
  | c ∷ [] ↦
      if not (ltb now s.join_deadline) || is_exhausted s
      then choose_candidate s 0 [] (if ltb 1 s.arrivals then "sole_survivor" else "single")
      else goes_on s
  | c ∷ d ∷ cs ↦
      if leb (final_deadline (note_decision s now).decision_deadline s.give_up) now
      then choose_candidate (note_decision s now) 0 [] "timeout"
      else goes_on (note_decision s now)
]

-- The bytes of the Streamer; no bytes are the end of the stream.
unfoldable pub on_upstream : Settling → Read → Settling
on_upstream s (reads bs) =
    elim (take (min (candidate_replay_limit - length s.replay) buffer_size) bs) [
      | [] ↦ record s {
        upstream_closed = true;
        observed = record_terminal s.observed streamer read_eof;
      }
      | b ∷ rest ↦ record s { replay = s.replay ++ (b ∷ rest) }
    ]
on_upstream s read_blocks = s
on_upstream s read_fails = record s {
  upstream_closed = true;
  observed = record_terminal s.observed streamer read_error;
}

abbrev pub without : Settling → ℕ → Settling
without s i = record s { candidates = remove_at s.candidates i }

-- A client that writes is chosen, and one that closes is dropped.
unfoldable pub on_readable : Settling → ℕ → Read → Turn
unfolding choose_candidate remove_at
on_readable s i (reads bs) = elim (take buffer_size bs) [
  | [] ↦ goes_on (without s i)
  | b ∷ rest ↦ choose_candidate s i (b ∷ rest) "client_data"
]
on_readable s i read_blocks = goes_on s
on_readable s i read_fails = goes_on (without s i)

-- `try_write(&replay[candidate.delivered..])` takes some of the bytes.
abbrev pub deliver : Settling → ℕ → Candidate → Candidate
deliver s n c = record c {
  client = record c.client { written = c.client.written ++ take n (drop c.delivered s.replay) };
  delivered = c.delivered + min n (length s.replay - c.delivered);
}

unfoldable pub deliver_at : Settling → ℕ → List Candidate → ℕ → List Candidate
deliver_at s n [] i = []
deliver_at s n (c ∷ cs) zero = deliver s n c ∷ cs
deliver_at s n (c ∷ cs) (suc i) = c ∷ deliver_at s n cs i

unfoldable pub on_writable : Settling → ℕ → Write → Settling
unfolding deliver_at remove_at
on_writable s i (accepts n) = record s { candidates = deliver_at s n s.candidates i }
on_writable s i write_blocks = s
on_writable s i write_fails = without s i

abbrev pub may_read_upstream : Settling → Bool
may_read_upstream s = not s.upstream_closed && ltb (length s.replay) candidate_replay_limit

abbrev pub may_write : Settling → ℕ → Bool
may_write s i = elim (get_elem? s.candidates i) [
  | none ↦ false
  | some c ↦ ltb c.delivered (length s.replay)
]

-- The match on the event; the poll offers only what is ready.
unfoldable pub on_event : Settling → CandidateEvent → Turn
unfolding on_upstream on_readable on_writable
on_event s joined = goes_on s
on_event s deadline = goes_on s
on_event s (upstream r) = if may_read_upstream s then goes_on (on_upstream s r) else goes_on s
on_event s (readable i r) = if ltb i (length s.candidates) then on_readable s i r else goes_on s
on_event s (writable i r) = if may_write s i then goes_on (on_writable s i r) else goes_on s

-- What happens in one turn: the clients that joined, the time, and the event that is waited for.
pub record Round : Type 0 where
  pub joining : List Client
  pub now : ℕ
  pub event : CandidateEvent

unfoldable pub then_event : Turn → CandidateEvent → Turn
unfolding on_event
then_event (settled x s) e = settled x s
then_event (goes_on s) e = on_event s e
then_event panics e = panics

unfoldable pub settle_round : Settling → Round → Turn
unfolding take_in decide then_event
settle_round s r = then_event (decide (take_in s r.joining) r.now) r.event

-- The loop, over what happens.
unfoldable pub settle_from : Turn → List Round → Turn
unfolding settle_round
settle_from t [] = t
settle_from (goes_on s) (r ∷ rs) = settle_from (settle_round s r) rs
settle_from (settled x s) (r ∷ rs) = settled x s
settle_from panics (r ∷ rs) = panics
