-- ===== src/Socks/Deadline.antt =====
-- The loop of `settle_candidates` has an answer in time.
use quest_vd_wired.Common.{ℕ, ◌≡◌, ◌≤◌, String, refl, List, [], ◌∷◌, arith, All}
use quest_vd_wired.Socks.Settle.{
  Client, Settling, CandidateEvent, Turn, settled, goes_on, panics, choose_candidate, take_in,
  decide, Round, settle_round, then_event,
}
use quest_vd_wired.Socks.Intact.{AllFed, Fresh, Fine, take_in-AllFed, decide-Fine}

-- The loop has returned.
abbrev pub IsSettled : Turn → Type 0
IsSettled (settled x s) = Unit {0}
IsSettled (goes_on s) = ⊥
IsSettled panics = ⊥

take_in_keeps :
    (clients : List Client) (s : Settling)
    → ((take_in s clients).join_deadline ≡ s.join_deadline)
      × ((take_in s clients).give_up ≡ s.give_up)
unfolding take_in
take_in_keeps [] s = (refl, refl)
take_in_keeps (client ∷ clients) s = take_in_keeps clients _

chooses :
    (s : Settling) (outcome : String)
    → Fine (choose_candidate s 0 [] outcome)
    → IsSettled (choose_candidate s 0 [] outcome)
unfolding choose_candidate
chooses s outcome h = ground (arith, h)

decide-IsSettled :
    (s : Settling) (now : ℕ)
    → s.join_deadline ≤ now
    → s.give_up ≤ now
    → Fine (decide s now)
    → IsSettled (decide s now)
unfolding decide choose_candidate
decide-IsSettled s now j g h = ground (arith, h)

then_event-IsSettled : (t : Turn) (e : CandidateEvent) → IsSettled t → IsSettled (then_event t e)
unfolding then_event
then_event-IsSettled (settled x s) e h = tt
then_event-IsSettled (goes_on s) e h = absurd h
then_event-IsSettled panics e h = absurd h

-- A turn behind both deadlines, the one for joining and the limit for the unresolved, returns an answer,
-- whatever happened before it.
pub settles_in_time :
    (s : Settling) (r : Round)
    → s.join_deadline ≤ r.now
    → s.give_up ≤ r.now
    → AllFed s
    → All Fresh r.joining
    → IsSettled (settle_round s r)
unfolding settle_round
settles_in_time s r j g h f =
    let k = take_in_keeps r.joining s in
    then_event-IsSettled (decide (take_in s r.joining) r.now) r.event (
      decide-IsSettled (take_in s r.joining) r.now (ground (arith, k)) (ground (arith, k))
        (decide-Fine (take_in s r.joining) r.now (take_in-AllFed r.joining s f h)))
