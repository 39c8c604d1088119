-- ===== src/Control/Accounts.antt =====
-- No stop request is lost or answered twice.
use quest_vd_wired.Common.{
  ℕ, zero, suc, ◌+◌, ◌≡◌, refl, true, List, [], ◌∷◌, ◌++◌, arith, if◌then◌else◌, ltb, ◌==◌, length,
  All, All-append, Bool-cases, inl, inr,
}
use quest_vd_wired.Control.Types.{ControlServer, Lane, Effect, Phase, greeting, looping, new_lane}
use quest_vd_wired.Control.Connection.{
  greet, register, move, phase_move, todo_move, Move, performs, lose_carrier, cancel_active,
  request_stop,
}
use quest_vd_wired.Control.Run.{
  System, Step, accepts, on, asks, live, max_control_handlers, accept, move_at, system_step,
  system_run,
}
use quest_vd_wired.Control.Requests.{
  one_if, returning, held, shared_count, total, is_tidy, calm_none, queued-append, select_counts,
  perform_counts, select_tidy, perform_tidy,
}

greet_counts :
    (s : ControlServer) (l : Lane) (m : Move) (r : ℕ)
    → l.todo ≡ []
    → total (phase_move s l greeting m) r ≡ total (s, l) r
unfolding phase_move greet register returning
greet_counts s l m r h = ground arith

greet_tidy :
    (s : ControlServer) (l : Lane) (m : Move)
    → l.todo ≡ []
    → is_tidy (phase_move s l greeting m).1.todo ≡ true
unfolding phase_move greet register is_tidy
greet_tidy s l m h = ground arith

phase_counts :
    (s : ControlServer) (l : Lane) (p : Phase) (m : Move) (r : ℕ)
    → l.todo ≡ []
    → total (phase_move s l p m) r ≡ total (s, l) r
unfolding phase_move
phase_counts s l greeting m r h = greet_counts s l m r h
phase_counts s l looping m r h = select_counts s l m r h
phase_counts s l p m r h = refl

phase_tidy :
    (s : ControlServer) (l : Lane) (p : Phase) (m : Move)
    → l.todo ≡ []
    → is_tidy (phase_move s l p m).1.todo ≡ true
unfolding phase_move is_tidy
phase_tidy s l greeting m h = greet_tidy s l m h
phase_tidy s l looping m h = select_tidy s l m h
phase_tidy s l p m h = ground arith

todo_counts :
    (s : ControlServer) (l : Lane) (es : List Effect) (m : Move) (r : ℕ)
    → l.todo ≡ es
    → is_tidy es ≡ true
    → total (todo_move s l es m) r ≡ total (s, l) r
unfolding todo_move is_tidy
todo_counts s l [] m r h k = phase_counts s l l.phase m r h
todo_counts s l (e ∷ es) (performs now works) r h k =
    perform_counts s l e es now works r h (calm_none es r k)
todo_counts s l (e ∷ es) m r h k = refl

todo_tidy :
    (s : ControlServer) (l : Lane) (es : List Effect) (m : Move)
    → l.todo ≡ es
    → is_tidy es ≡ true
    → is_tidy (todo_move s l es m).1.todo ≡ true
unfolding todo_move is_tidy
todo_tidy s l [] m h k = phase_tidy s l l.phase m h
todo_tidy s l (e ∷ es) (performs now works) h k = perform_tidy s l e es now works k
todo_tidy s l (e ∷ es) m h k = ground arith

abbrev pub TidyLane : Lane → Type 0
TidyLane l = is_tidy l.todo ≡ true

unfoldable pub held_by_all : List Lane → ℕ → ℕ
held_by_all [] r = 0
held_by_all (l ∷ ls) r = held l r + held_by_all ls r

abbrev pub everywhere : System → ℕ → ℕ
everywhere y r = shared_count y.server r + held_by_all y.lanes r

at_counts :
    (s : ControlServer) (ls : List Lane) (k : ℕ) (m : Move) (r : ℕ)
    → All TidyLane ls
    → shared_count (move_at s ls k m).0 r + held_by_all (move_at s ls k m).1 r
      ≡ shared_count s r + held_by_all ls r
unfolding move_at move held_by_all
at_counts s [] k m r h = refl
at_counts s (l ∷ ls) zero m r (h, hs) = ground (arith, todo_counts s l l.todo m r refl h)
at_counts s (l ∷ ls) (suc k) m r (h, hs) = ground (arith, at_counts s ls k m r hs)

at_tidy :
    (s : ControlServer) (ls : List Lane) (k : ℕ) (m : Move)
    → All TidyLane ls
    → All TidyLane (move_at s ls k m).1
unfolding move_at move
at_tidy s [] k m h = tt
at_tidy s (l ∷ ls) zero m (h, hs) = (todo_tidy s l l.todo m refl h, hs)
at_tidy s (l ∷ ls) (suc k) m (h, hs) = (h, at_tidy s ls k m hs)

held_by_all-append :
    (ls : List Lane) (r : ℕ) → held_by_all (ls ++ (new_lane ∷ [])) r ≡ held_by_all ls r
unfolding held_by_all returning
held_by_all-append [] r = refl
held_by_all-append (l ∷ ls) r = ground (arith, held_by_all-append ls r)

held_by_all-accept : (ls : List Lane) (r : ℕ) → held_by_all (accept ls) r ≡ held_by_all ls r
unfolding accept
held_by_all-accept ls r = ground (arith, held_by_all-append ls r)

accept_tidy : (ls : List Lane) → All TidyLane ls → All TidyLane (accept ls)
unfolding accept is_tidy
accept_tidy ls h = elim (Bool-cases (ltb (live ls) max_control_handlers)) [
  | inl k ↦ rw k (All-append TidyLane ls (new_lane ∷ []) h (refl, tt))
  | inr k ↦ rw k h
]

-- The stop requests that the channel took.
abbrev pub taken : ControlServer → Step → ℕ → ℕ
taken s (asks c) r = if ltb (length s.commands) 4 then one_if (c.result == r) else 0
taken s x r = 0

unfoldable pub accepted : System → List Step → ℕ → ℕ
unfolding system_step
accepted y [] r = 0
accepted y (x ∷ xs) r = taken y.server x r + accepted (system_step y x) xs r

step_counts :
    (y : System) (x : Step) (r : ℕ)
    → All TidyLane y.lanes
    → everywhere (system_step y x) r ≡ everywhere y r + taken y.server x r
unfolding system_step cancel_active request_stop lose_carrier
step_counts y accepts r h = ground (arith, held_by_all-accept y.lanes r)
step_counts y (on k m) r h = ground (arith, at_counts y.server y.lanes k m r h)
step_counts y (asks c) r h = ground (arith, queued-append y.server.commands c r)
step_counts y x r h = ground arith

step_tidy : (y : System) (x : Step) → All TidyLane y.lanes → All TidyLane (system_step y x).lanes
unfolding system_step
step_tidy y accepts h = accept_tidy y.lanes h
step_tidy y (on k m) h = at_tidy y.server y.lanes k m h
step_tidy y x h = h

-- From a state whose connections take a request back before anything else, whatever happens: each stop request that the channel took is, as
-- often as it was taken, in the channel, with one connection, or answered. So none is lost and none is
-- answered twice.
pub request_accounted :
    (y : System) (xs : List Step) (r : ℕ)
    → All TidyLane y.lanes
    → everywhere (system_run y xs) r ≡ everywhere y r + accepted y xs r
unfolding system_run accepted
request_accounted y [] r h = ground arith
request_accounted y (x ∷ xs) r h =
    ground (arith, step_counts y x r h, request_accounted (system_step y x) xs r (step_tidy y x h))
