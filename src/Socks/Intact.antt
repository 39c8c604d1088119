-- ===== src/Socks/Intact.antt =====
-- What the Streamer sends reaches the client that is chosen: nothing is lost, and nothing is sent twice.
use quest_vd_wired.Common.{
  ℕ, zero, suc, ◌+◌, ◌-◌, ◌≡◌, ◌≢◌, ◌≤◌, refl, sym, ap, ◌∙◌, Option, none, some, List, [], ◌∷◌,
  ◌++◌, min, length, take, drop, get_elem?, append_assoc, arith, All, All-append, Bool-cases,
  Option-cases, List-cases, inl, inr, length-append, length-drop, String, take-append-drop,
  get_elem?-All, ltb,
}
use quest_vd_wired.Socks.Settle.{
  Client, Candidate, ChosenCandidate, Settling, Turn, settled, goes_on, panics, Read, reads,
  read_blocks, read_fails, Write, accepts, write_blocks, write_fails, CandidateEvent, joined,
  deadline, upstream, readable, writable, remove_at, choose_candidate, take_in, decide, on_upstream,
  on_readable, on_writable, deliver, deliver_at, on_event, Round, settle_round, settle_from,
  then_event, candidate_replay_limit, buffer_size, begin, note_decision,
}

-- The bytes that were written to the client are the first of the replay, as many as are counted.
pub record IsFed (replay : List ℕ) (c : Candidate) : Type 0 where
  pub in_replay : c.delivered ≤ length replay
  pub fed : c.client.written ++ drop c.delivered replay ≡ replay

abbrev pub AllFed : Settling → Type 0
AllFed s = All (IsFed s.replay) s.candidates

module _ {ℓ} {A : Type ℓ} where
  drop-append_short : (n : ℕ) (xs ys : List A) → n ≤ length xs → drop n (xs ++ ys) ≡ drop n xs ++ ys
  drop-append_short zero xs ys h = refl
  drop-append_short (suc n) [] ys h = absurd (ground arith)
  drop-append_short (suc n) (x ∷ xs) ys h = drop-append_short n xs ys (omega arith)

  drop_nil : (n : ℕ) → drop {A = A} n [] ≡ []
  drop_nil zero = refl
  drop_nil (suc n) = refl

  drop-min : (n m : ℕ) (xs : List A) → m ≡ min n (length xs) → drop m xs ≡ drop n xs
  drop-min zero zero xs h = refl
  drop-min zero (suc m) xs h = absurd (omega arith)
  drop-min (suc n) zero [] h = refl
  drop-min (suc n) (suc m) [] h = refl
  drop-min (suc n) zero (x ∷ xs) h = absurd (omega arith)
  drop-min (suc n) (suc m) (x ∷ xs) h = drop-min n m xs (omega arith)

  drop-drop : (d m k : ℕ) (xs : List A) → k ≡ d + m → drop k xs ≡ drop m (drop d xs)
  drop-drop zero m k xs h = ap (λ z. drop z xs) (omega arith)
  drop-drop (suc d) m k [] h = drop_nil k ∙ sym (drop_nil m)
  drop-drop (suc d) m zero (x ∷ xs) h = absurd (omega arith)
  drop-drop (suc d) m (suc k) (x ∷ xs) h = drop-drop d m k xs (omega arith)

  -- To drop behind what was written.
  drop_written : (d n : ℕ) (xs : List A) → drop (d + min n (length xs - d)) xs ≡ drop n (drop d xs)
  drop_written d n xs =
      drop-drop d (min n (length xs - d)) (d + min n (length xs - d)) xs refl
      ∙ drop-min n (min n (length xs - d)) (drop d xs) (rw (length-drop d xs) refl)

grow-IsFed : (replay more : List ℕ) (c : Candidate) → IsFed replay c → IsFed (replay ++ more) c
grow-IsFed replay more c h = record {
  in_replay = rw (length-append replay more) (ground (arith, h.in_replay));
  fed =
      ap (λ z. c.client.written ++ z) (drop-append_short c.delivered replay more h.in_replay)
      ∙ (sym (append_assoc c.client.written (drop c.delivered replay) more)
          ∙ ap (λ z. z ++ more) h.fed);
}

grow-AllFed :
    (replay more : List ℕ) (cs : List Candidate)
    → All (IsFed replay) cs
    → All (IsFed (replay ++ more)) cs
grow-AllFed replay more [] h = tt
grow-AllFed replay more (c ∷ cs) (h, hs) =
    (grow-IsFed replay more c h, grow-AllFed replay more cs hs)

deliver-IsFed :
    (s : Settling) (n : ℕ) (c : Candidate) → IsFed s.replay c → IsFed s.replay (deliver s n c)
deliver-IsFed s n c h = record {
  in_replay = ground (arith, h.in_replay);
  fed =
      ap (λ z. (c.client.written ++ take n (drop c.delivered s.replay)) ++ z)
        (drop_written c.delivered n s.replay)
      ∙ (append_assoc c.client.written (take n (drop c.delivered s.replay))
            (drop n (drop c.delivered s.replay))
          ∙ (ap (λ z. c.client.written ++ z) (take-append-drop n (drop c.delivered s.replay))
              ∙ h.fed));
}

deliver_at-AllFed :
    (s : Settling) (n : ℕ) (cs : List Candidate) (i : ℕ)
    → All (IsFed s.replay) cs
    → All (IsFed s.replay) (deliver_at s n cs i)
unfolding deliver_at
deliver_at-AllFed s n [] i h = tt
deliver_at-AllFed s n (c ∷ cs) zero (h, hs) = (deliver-IsFed s n c h, hs)
deliver_at-AllFed s n (c ∷ cs) (suc i) (h, hs) = (h, deliver_at-AllFed s n cs i hs)

remove_at-All :
    (replay : List ℕ) (cs : List Candidate) (i : ℕ)
    → All (IsFed replay) cs
    → All (IsFed replay) (remove_at cs i)
unfolding remove_at
remove_at-All replay [] i h = tt
remove_at-All replay (c ∷ cs) zero (h, hs) = hs
remove_at-All replay (c ∷ cs) (suc i) (h, hs) = (h, remove_at-All replay cs i hs)

-- A client that joins has not been written to.
abbrev pub Fresh : Client → Type 0
Fresh client = client.written ≡ []

pub take_in-AllFed :
    (clients : List Client) (s : Settling)
    → All Fresh clients
    → AllFed s
    → AllFed (take_in s clients)
unfolding take_in
take_in-AllFed [] s f h = h
take_in-AllFed (client ∷ clients) s (f, fs) h = take_in-AllFed clients _ fs (
    All-append (IsFed s.replay) s.candidates _ h
      (record { in_replay = omega arith; fed = ap (λ z. z ++ s.replay) f }, tt))

-- What a chosen client was sent, and what is still to be sent to it, is the replay.
abbrev pub Whole : Option ChosenCandidate → Settling → Type 0
Whole none s = Unit {0}
Whole (some c) s = c.client.written ++ c.upstream_suffix ≡ s.replay

-- A turn that is right: it has chosen such a client, or none, or it goes on with clients that were sent
-- what is counted. It is not one that panics.
abbrev pub Fine : Turn → Type 0
Fine (settled x s) = Whole x.chosen s
Fine (goes_on s) = AllFed s
Fine panics = ⊥

get_elem?-some : (cs : List Candidate) (i : ℕ) → suc i ≤ length cs → get_elem? cs i ≢ none
get_elem?-some [] i h e = absurd (omega arith)
get_elem?-some (c ∷ cs) zero h e = absurd (ground arith)
get_elem?-some (c ∷ cs) (suc i) h e = get_elem?-some cs i (omega arith) e

choose-Fine :
    (s : Settling) (i : ℕ) (prefix : List ℕ) (outcome : String)
    → suc i ≤ length s.candidates
    → AllFed s
    → Fine (choose_candidate s i prefix outcome)
unfolding choose_candidate
choose-Fine s i prefix outcome b h = elim (Option-cases (get_elem? s.candidates i)) [
  | inl e ↦ absurd (get_elem?-some s.candidates i b e)
  | inr (c, e) ↦
      let k = get_elem?-All (IsFed s.replay) s.candidates i h e in
      ground (arith, e, k.in_replay, k.fed)
]

note_decision-AllFed : (s : Settling) (now : ℕ) → AllFed s → AllFed (note_decision s now)
note_decision-AllFed s now h = ground (arith, h)

pub decide-Fine : (s : Settling) (now : ℕ) → AllFed s → Fine (decide s now)
unfolding decide
decide-Fine s now h = elim (List-cases s.candidates) [
  | inl e ↦ ground (arith, h, e)
  | inr (c, cs, e) ↦
      let b = ap length e in
      let one = choose-Fine s 0 [] "sole_survivor" (omega (arith, b)) h in
      let single = choose-Fine s 0 [] "single" (omega (arith, b)) h in
      let late =
        choose-Fine (note_decision s now) 0 [] "timeout" (ground (arith, b))
          (note_decision-AllFed s now h) in
      ground (arith, h, e, one, single, late)
]

on_upstream-AllFed : (s : Settling) (r : Read) → AllFed s → AllFed (on_upstream s r)
unfolding on_upstream
on_upstream-AllFed s (reads bs) h =
    elim (List-cases (take (min (candidate_replay_limit - length s.replay) buffer_size) bs)) [
      | inl e ↦ ground (arith, h, e)
      | inr (b, more, e) ↦ ground (arith, e, grow-AllFed s.replay (b ∷ more) s.candidates h)
    ]
on_upstream-AllFed s read_blocks h = h
on_upstream-AllFed s read_fails h = h

on_readable-Fine :
    (s : Settling) (i : ℕ) (r : Read)
    → suc i ≤ length s.candidates
    → AllFed s
    → Fine (on_readable s i r)
unfolding on_readable
on_readable-Fine s i (reads bs) b h = elim (List-cases (take buffer_size bs)) [
  | inl e ↦ ground (arith, e, remove_at-All s.replay s.candidates i h)
  | inr (x, more, e) ↦ ground (arith, e, choose-Fine s i (x ∷ more) "client_data" b h)
]
on_readable-Fine s i read_blocks b h = h
on_readable-Fine s i read_fails b h = remove_at-All s.replay s.candidates i h

on_writable-AllFed : (s : Settling) (i : ℕ) (r : Write) → AllFed s → AllFed (on_writable s i r)
unfolding on_writable
on_writable-AllFed s i (accepts n) h = deliver_at-AllFed s n s.candidates i h
on_writable-AllFed s i write_blocks h = h
on_writable-AllFed s i write_fails h = remove_at-All s.replay s.candidates i h

on_event-Fine : (s : Settling) (e : CandidateEvent) → AllFed s → Fine (on_event s e)
unfolding on_event
on_event-Fine s joined h = h
on_event-Fine s deadline h = h
on_event-Fine s (upstream r) h = ground (arith, h, on_upstream-AllFed s r h)
on_event-Fine s (readable i r) h = elim (Bool-cases (ltb i (length s.candidates))) [
  | inl e ↦ ground (arith, e, on_readable-Fine s i r (ground (arith, e)) h)
  | inr e ↦ ground (arith, e, h)
]
on_event-Fine s (writable i r) h = ground (arith, h, on_writable-AllFed s i r h)

then_event-Fine : (t : Turn) (e : CandidateEvent) → Fine t → Fine (then_event t e)
unfolding then_event
then_event-Fine (settled x s) e h = h
then_event-Fine (goes_on s) e h = on_event-Fine s e h
then_event-Fine panics e h = h

abbrev pub JoinsFresh : Round → Type 0
JoinsFresh r = All Fresh r.joining

settle_from-Fine :
    (t : Turn) (rs : List Round) → All JoinsFresh rs → Fine t → Fine (settle_from t rs)
unfolding settle_from settle_round
settle_from-Fine (settled x s) [] f h = h
settle_from-Fine (goes_on s) [] f h = h
settle_from-Fine panics [] f h = h
settle_from-Fine (settled x s) (r ∷ rs) f h = h
settle_from-Fine panics (r ∷ rs) f h = h
settle_from-Fine (goes_on s) (r ∷ rs) (f, fs) h = settle_from-Fine (settle_round s r) rs fs (
    then_event-Fine (decide (take_in s r.joining) r.now) r.event
      (decide-Fine (take_in s r.joining) r.now (take_in-AllFed r.joining s f h)))

-- No run of the loop panics, and a chosen client was sent, and is still to be sent, the whole replay, if no
-- client had been written to before it joined.
pub settle-Fine :
    (now join_deadline : ℕ) (first : Client) (rs : List Round)
    → Fresh first
    → All JoinsFresh rs
    → Fine (settle_from (goes_on (begin now join_deadline first)) rs)
unfolding begin
settle-Fine now join_deadline first rs f fs =
    settle_from-Fine (goes_on (begin now join_deadline first)) rs fs
      (record { in_replay = omega arith; fed = ap (λ z. z ++ []) f }, tt)
