-- ===== src/Control/Epochs.antt =====
-- The epochs of connections: each is current once, and then never again.
use quest_vd_wired.Common.{
  ℕ, zero, suc, ◌+◌, ◌-◌, ◌^◌, ◌<◌, ◌≤◌, ◌≡◌, refl, ◌⊎◌, inl, inr, none, some, Bool, false, List,
  [], ◌∷◌, arith, length,
}
use quest_vd_wired.Protocol.Types.{MessageType, Frame}
use quest_vd_wired.Control.Types.{
  ControlServer, Lane, Received, received, Effect, Phase, greeting, looping, is_current,
}
use quest_vd_wired.Control.Select.{
  on_tick, on_started, accept_started, on_heartbeat, on_stopped, on_status, on_metrics, on_suspend,
  on_error, on_message, on_received, on_command, take_command, on_deadline, try_transition,
}
use quest_vd_wired.Control.Connection.{
  greet, register, finish, clean_up, requeue, perform, select, move, phase_move, todo_move, Move,
  greets, performs, receives, lose_carrier, cancel_active, request_stop,
}
use quest_vd_wired.Control.Run.{System, Step, accepts, on, move_at, system_step, system_run}

-- No new connection became active.
abbrev NoneNew : ControlServer → ControlServer → Type 0
NoneNew s s' =
    (s'.connection_generation ≡ s.connection_generation)
    × ((s'.active ≡ s.active) ⊎ (s'.active ≡ none))

-- A connection that the server has numbered, and that is not the active one.
pub record IsPast (e : ℕ) (s : ControlServer) : Type 0 where
  pub numbered : e ≤ s.connection_generation
  pub not_current : is_current s e ≡ false

NoneNew-IsPast : (e : ℕ) (s s' : ControlServer) → NoneNew s s' → IsPast e s → IsPast e s'
NoneNew-IsPast e s s' (g, inl a) h = record {
  numbered = ground (arith, h.numbered);
  not_current = ground (arith, h.not_current);
}
NoneNew-IsPast e s s' (g, inr a) h = record {
  numbered = ground (arith, h.numbered);
  not_current = ground arith;
}

-- What one step of the server does to the numbers: none is new, or the next one is active.
abbrev Numbers : ControlServer → ControlServer → Type 0
Numbers s s' =
    NoneNew s s'
    ⊎ ((s'.connection_generation ≡ s.connection_generation + 1)
        × (s'.active ≡ some (s.connection_generation + 1)))

message-NoneNew :
    (s : ControlServer) (l : Lane) (f : Frame) (now : ℕ) (t : MessageType)
    → NoneNew s (on_message s l f now t).0
unfolding on_message on_started accept_started on_heartbeat on_stopped on_status on_metrics
    on_suspend on_error try_transition
message-NoneNew s l f now MessageType.started = ground arith
message-NoneNew s l f now MessageType.heartbeat = ground arith
message-NoneNew s l f now MessageType.stopped = ground arith
message-NoneNew s l f now MessageType.status = ground arith
message-NoneNew s l f now MessageType.metrics = ground arith
message-NoneNew s l f now MessageType.suspend = ground arith
message-NoneNew s l f now MessageType.error = ground arith
message-NoneNew s l f now t = (refl, inl refl)

select-NoneNew : (s : ControlServer) (l : Lane) (m : Move) → NoneNew s (select s l m).0
unfolding select on_tick on_deadline on_received take_command on_command
select-NoneNew s l (receives (received f) now) =
    ground (arith, message-NoneNew s l f now f.message_type)
select-NoneNew s l m = ground arith

perform-NoneNew :
    (s : ControlServer) (l : Lane) (e : Effect) (es : List Effect) (now : ℕ) (works : Bool)
    → NoneNew s (perform s l e es now works).0
unfolding perform requeue clean_up finish
perform-NoneNew s l e es now works = ground arith

greet-Numbers :
    (s : ControlServer) (l : Lane) (r : Received)
    → s.connection_generation < 2 ^ 64 - 1
    → Numbers s (greet s l r).0
unfolding greet register
greet-Numbers s l r h = ground arith

Numbers-refl : (s : ControlServer) → Numbers s s
Numbers-refl s = inl (refl, inl refl)

phase-Numbers :
    (s : ControlServer) (l : Lane) (p : Phase) (m : Move)
    → s.connection_generation < 2 ^ 64 - 1
    → Numbers s (phase_move s l p m).0
unfolding phase_move
phase-Numbers s l greeting (greets r) h = greet-Numbers s l r h
phase-Numbers s l looping m h = inl (select-NoneNew s l m)
phase-Numbers s l p m h = ground (arith, Numbers-refl s)

todo-Numbers :
    (s : ControlServer) (l : Lane) (es : List Effect) (m : Move)
    → s.connection_generation < 2 ^ 64 - 1
    → Numbers s (todo_move s l es m).0
unfolding todo_move
todo-Numbers s l [] m h = phase-Numbers s l l.phase m h
todo-Numbers s l (e ∷ es) (performs now works) h = inl (perform-NoneNew s l e es now works)
todo-Numbers s l (e ∷ es) m h = Numbers-refl s

at-Numbers :
    (s : ControlServer) (ls : List Lane) (k : ℕ) (m : Move)
    → s.connection_generation < 2 ^ 64 - 1
    → Numbers s (move_at s ls k m).0
unfolding move_at move
at-Numbers s [] k m h = Numbers-refl s
at-Numbers s (l ∷ ls) zero m h = todo-Numbers s l l.todo m h
at-Numbers s (l ∷ ls) (suc k) m h = at-Numbers s ls k m h

step-Numbers :
    (y : System) (x : Step)
    → y.server.connection_generation < 2 ^ 64 - 1
    → Numbers y.server (system_step y x).server
unfolding system_step cancel_active request_stop lose_carrier
step-Numbers y accepts h = Numbers-refl y.server
step-Numbers y (on k m) h = at-Numbers y.server y.lanes k m h
step-Numbers y x h = inl (ground arith)

Numbers-IsPast : (e : ℕ) (s s' : ControlServer) → Numbers s s' → IsPast e s → IsPast e s'
Numbers-IsPast e s s' (inl n) h = NoneNew-IsPast e s s' n h
Numbers-IsPast e s s' (inr (g, a)) h = record {
  numbered = ground (arith, h.numbered);
  not_current = ground (arith, h.numbered);
}

grows :
    (s s' : ControlServer) → Numbers s s' → s'.connection_generation ≤ s.connection_generation + 1
grows s s' (inl n) = ground (arith, n)
grows s s' (inr n) = ground (arith, n)

-- A connection that was numbered and is not the active one never is the active one again, whatever
-- happens, as long as fewer than 2^64 - 1 connections can have been numbered.
pub system_run-IsPast :
    (e : ℕ) (y : System) (xs : List Step)
    → y.server.connection_generation + length xs < 2 ^ 64 - 1
    → IsPast e y.server
    → IsPast e (system_run y xs).server
unfolding system_run
system_run-IsPast e y [] b h = h
system_run-IsPast e y (x ∷ xs) b h =
    let n = step-Numbers y x (omega arith) in
    let g = grows y.server (system_step y x).server n in
    system_run-IsPast e (system_step y x) xs (omega arith) (Numbers-IsPast e _ _ n h)
