-- ===== src/Socks/Heard.antt =====
-- What the Streamer has sent, as its reads deliver it, and what of it reaches the client that is chosen.
use quest_vd_wired.Common.{
  ℕ, ◌-◌, ◌≡◌, ◌≤◌, refl, sym, ap, subst, ◌∙◌, Option, none, some, List, [], ◌∷◌, ◌++◌, Bool, true,
  false, min, length, take, get_elem?, arith, All, Bool-cases, Option-cases, List-cases, inl, inr,
  String, append-nil, ltb, if◌then◌else◌,
}
use quest_vd_wired.Socks.Settle.{
  Client, ChosenCandidate, Settling, Turn, settled, goes_on, panics, Read, reads, read_blocks,
  read_fails, Write, accepts, write_blocks, write_fails, CandidateEvent, joined, deadline, upstream,
  readable, writable, choose_candidate, take_in, decide, on_upstream, on_readable, on_writable,
  on_event, Round, settle_round, settle_from, then_event, candidate_replay_limit, buffer_size,
  begin, note_decision,
}
use quest_vd_wired.Socks.Intact as Intact
use quest_vd_wired.Socks.Intact.{IsFed, Fine, Fresh, JoinsFresh, settle-Fine}

-- A read takes what the socket offers, as far as there is room behind what was sent before and in the
-- buffer.
abbrev pub taken_by : List ℕ → CandidateEvent → List ℕ
taken_by sent (upstream (reads bs)) =
    take (min (candidate_replay_limit - length sent) buffer_size) bs
taken_by sent joined = []
taken_by sent deadline = []
taken_by sent (upstream read_blocks) = []
taken_by sent (upstream read_fails) = []
taken_by sent (readable i r) = []
taken_by sent (writable i r) = []

-- The loop reads while it goes on and has not seen the end of the stream.
abbrev pub taken : List ℕ → Turn → CandidateEvent → List ℕ
taken sent (goes_on s) e = if s.upstream_closed then [] else taken_by sent e
taken sent (settled x s) e = []
taken sent panics e = []

-- All that the reads of these rounds deliver, behind what was sent before.
unfoldable pub heard : List ℕ → Turn → List Round → List ℕ
heard sent (goes_on s) (r ∷ rs) =
    heard (sent ++ taken sent (decide (take_in s r.joining) r.now) r.event) (settle_round s r) rs
heard sent (settled x s) (r ∷ rs) = sent
heard sent panics (r ∷ rs) = sent
heard sent t [] = sent

-- A turn that remembers all that was sent.
abbrev Recalls : List ℕ → Turn → Type 0
Recalls sent (settled x s) = s.replay ≡ sent
Recalls sent (goes_on s) = s.replay ≡ sent
Recalls sent panics = Unit {0}

take_in-replay : (clients : List Client) (s : Settling) → (take_in s clients).replay ≡ s.replay
unfolding take_in
take_in-replay [] s = refl
take_in-replay (client ∷ clients) s = take_in-replay clients _

choose-Recalls :
    (sent : List ℕ) (s : Settling) (i : ℕ) (prefix : List ℕ) (outcome : String)
    → s.replay ≡ sent
    → Recalls sent (choose_candidate s i prefix outcome)
unfolding choose_candidate
choose-Recalls sent s i prefix outcome h = elim (Option-cases (get_elem? s.candidates i)) [
  | inl e ↦ ground (arith, h, e)
  | inr (c, e) ↦ ground (arith, h, e)
]

decide-Recalls :
    (sent : List ℕ) (s : Settling) (now : ℕ) → s.replay ≡ sent → Recalls sent (decide s now)
unfolding decide
decide-Recalls sent s now h = elim (List-cases s.candidates) [
  | inl e ↦ ground (arith, h, e)
  | inr (c, cs, e) ↦
      let one = choose-Recalls sent s 0 [] "sole_survivor" h in
      let single = choose-Recalls sent s 0 [] "single" h in
      let late = choose-Recalls sent (note_decision s now) 0 [] "timeout" (ground (arith, h)) in
      ground (arith, h, e, one, single, late)
]

take_full :
    (sent bs : List ℕ)
    → candidate_replay_limit ≤ length sent
    → take (min (candidate_replay_limit - length sent) buffer_size) bs ≡ []
take_full sent bs h =
    ap (λ n. take n bs) {x = min (candidate_replay_limit - length sent) buffer_size} {y = 0}
      (ground (arith, h))

-- The read of the loop keeps all that it takes.
upstream-Recalls :
    (sent : List ℕ) (s : Settling) (r : Read)
    → s.replay ≡ sent
    → (on_upstream s r).replay ≡ sent ++ taken_by sent (upstream r)
unfolding on_upstream
upstream-Recalls sent s (reads bs) h =
    subst (λ z. (on_upstream s (reads bs)).replay ≡ z ++ taken_by z (upstream (reads bs))) h
      (elim (List-cases (take (min (candidate_replay_limit - length s.replay) buffer_size) bs)) [
        | inl e ↦ ground (arith, e, append-nil s.replay)
        | inr (b, more, e) ↦ ground (arith, e)
      ])
upstream-Recalls sent s read_blocks h = h ∙ sym (append-nil sent)
upstream-Recalls sent s read_fails h = h ∙ sym (append-nil sent)

readable-Recalls :
    (sent : List ℕ) (s : Settling) (i : ℕ) (r : Read)
    → s.replay ≡ sent
    → Recalls sent (on_readable s i r)
unfolding on_readable
readable-Recalls sent s i (reads bs) h = elim (List-cases (take buffer_size bs)) [
  | inl e ↦ ground (arith, e, h)
  | inr (x, more, e) ↦ ground (arith, e, choose-Recalls sent s i (x ∷ more) "client_data" h)
]
readable-Recalls sent s i read_blocks h = h
readable-Recalls sent s i read_fails h = h

writable-replay : (s : Settling) (i : ℕ) (r : Write) → (on_writable s i r).replay ≡ s.replay
unfolding on_writable
writable-replay s i (accepts n) = refl
writable-replay s i write_blocks = refl
writable-replay s i write_fails = refl

if-Recalls :
    (sent : List ℕ) (b : Bool) (t u : Turn)
    → Recalls sent t
    → Recalls sent u
    → Recalls sent (if b then t else u)
if-Recalls sent true t u h k = h
if-Recalls sent false t u h k = k

-- An event without a read delivers nothing.
unread-Recalls :
    (sent : List ℕ) (b : Bool) (t : Turn)
    → Recalls sent t
    → Recalls (sent ++ (if b then [] else [])) t
unread-Recalls sent true t h = rw append-nil h
unread-Recalls sent false t h = rw append-nil h

upstream_event-Recalls :
    (sent : List ℕ) (s : Settling) (r : Read)
    → s.replay ≡ sent
    → Recalls (sent ++ taken sent (goes_on s) (upstream r)) (on_event s (upstream r))
unfolding on_event
upstream_event-Recalls sent s r h = elim (Bool-cases s.upstream_closed) [
  | inl closed ↦ ground (arith, closed, h, append-nil sent)
  | inr open? ↦ elim (Bool-cases (ltb (length s.replay) candidate_replay_limit)) [
    | inl room ↦ ground (arith, open?, room, upstream-Recalls sent s r h)
    | inr full ↦ full-Recalls r open? full
  ]
]
  where
    full-Recalls :
        (r : Read)
        → s.upstream_closed ≡ false
        → ltb (length s.replay) candidate_replay_limit ≡ false
        → Recalls (sent ++ taken sent (goes_on s) (upstream r)) (on_event s (upstream r))
    full-Recalls (reads bs) o f =
        let long : candidate_replay_limit ≤ length sent =
          subst (λ z. candidate_replay_limit ≤ length z) h (ground (arith, f)) in
        ground (arith, o, f, h, take_full sent bs long, append-nil sent)
    full-Recalls read_blocks o f = ground (arith, o, f, h, append-nil sent)
    full-Recalls read_fails o f = ground (arith, o, f, h, append-nil sent)

event-Recalls :
    (sent : List ℕ) (s : Settling) (e : CandidateEvent)
    → s.replay ≡ sent
    → Recalls (sent ++ taken sent (goes_on s) e) (on_event s e)
unfolding on_event
event-Recalls sent s joined h = unread-Recalls sent s.upstream_closed (goes_on s) h
event-Recalls sent s deadline h = unread-Recalls sent s.upstream_closed (goes_on s) h
event-Recalls sent s (upstream r) h = upstream_event-Recalls sent s r h
event-Recalls sent s (readable i r) h =
    unread-Recalls sent s.upstream_closed _
      (if-Recalls sent _ (on_readable s i r) (goes_on s) (readable-Recalls sent s i r h) h)
event-Recalls sent s (writable i r) h =
    unread-Recalls sent s.upstream_closed _
      (if-Recalls sent _ (goes_on (on_writable s i r)) (goes_on s) (writable-replay s i r ∙ h) h)

then_event-Recalls :
    (sent : List ℕ) (t : Turn) (e : CandidateEvent)
    → Recalls sent t
    → Recalls (sent ++ taken sent t e) (then_event t e)
unfolding then_event
then_event-Recalls sent (settled x s) e h = h ∙ sym (append-nil sent)
then_event-Recalls sent (goes_on s) e h = event-Recalls sent s e h
then_event-Recalls sent panics e h = tt

settle-Recalls :
    (sent : List ℕ) (t : Turn) (rs : List Round)
    → Recalls sent t
    → Recalls (heard sent t rs) (settle_from t rs)
unfolding heard settle_from settle_round
settle-Recalls sent (goes_on s) (r ∷ rs) h =
    settle-Recalls (sent ++ taken sent (decide (take_in s r.joining) r.now) r.event)
      (settle_round s r) rs
      (then_event-Recalls sent (decide (take_in s r.joining) r.now) r.event
        (decide-Recalls sent (take_in s r.joining) r.now (take_in-replay r.joining s ∙ h)))
settle-Recalls sent (settled x s) (r ∷ rs) h = h
settle-Recalls sent panics (r ∷ rs) h = h
settle-Recalls sent (goes_on s) [] h = h
settle-Recalls sent (settled x s) [] h = h
settle-Recalls sent panics [] h = h

-- What a chosen client was sent, and what is still to be sent to it, is all that was sent.
abbrev pub Whole : List ℕ → Option ChosenCandidate → Type 0
Whole sent none = Unit {0}
Whole sent (some c) = c.client.written ++ c.upstream_suffix ≡ sent

-- The loop has chosen such a client, or none, or it goes on, and each client was sent the first of all that
-- was sent, as many bytes as are counted. It does not panic.
abbrev pub Delivers : List ℕ → Turn → Type 0
Delivers sent (settled x s) = Whole sent x.chosen
Delivers sent (goes_on s) = All (IsFed sent) s.candidates
Delivers sent panics = ⊥

chosen-Whole :
    (sent : List ℕ) (x : Option ChosenCandidate) (s : Settling)
    → s.replay ≡ sent
    → Intact.Whole x s
    → Whole sent x
chosen-Whole sent none s e h = tt
chosen-Whole sent (some c) s e h = h ∙ e

Fine-Delivers : (sent : List ℕ) (t : Turn) → Recalls sent t → Fine t → Delivers sent t
Fine-Delivers sent (settled x s) e h = chosen-Whole sent x.chosen s e h
Fine-Delivers sent (goes_on s) e h = subst (λ z. All (IsFed z) s.candidates) e h
Fine-Delivers sent panics e h = h

-- However the sockets behave, the loop does not run out of bounds. If it chooses a client, then what was
-- written to this client, followed by what it says is still to be written, is exactly what the reads
-- from the Streamer have delivered in all rounds, each as far as there was room in the replay and in
-- the buffer; while it goes on, each client was written the first of these bytes, as many as it counts.
-- Provided that no client had been written to before it joined.
pub settle-Delivers :
    (now join_deadline : ℕ) (first : Client) (rs : List Round)
    → Fresh first
    → All JoinsFresh rs
    → Delivers
        (heard [] (goes_on (begin now join_deadline first)) rs)
        (settle_from (goes_on (begin now join_deadline first)) rs)
unfolding begin
settle-Delivers now join_deadline first rs f fs =
    let t = goes_on (begin now join_deadline first) in
    Fine-Delivers (heard [] t rs) (settle_from t rs) (settle-Recalls [] t rs refl)
      (settle-Fine now join_deadline first rs f fs)
