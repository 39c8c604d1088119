-- ===== src/Control/Superseded.antt =====
-- A connection that a newer one has replaced.
use quest_vd_wired.Common.{ℕ, ◌≡◌, ◌≢◌, refl, Bool, false, List, [], ◌∷◌, All, arith}
use quest_vd_wired.Protocol.Types.{MessageType, Frame}
use quest_vd_wired.Control.Types.{
  ControlServer, Lane, Received, received, Effect, fails_machine, Phase, greeting, looping,
  is_current,
}
use quest_vd_wired.Control.Select.{
  Handled, on_tick, on_started, accept_started, on_heartbeat, on_stopped, on_status, on_metrics,
  on_suspend, on_error, on_message, on_received, on_command, take_command, on_deadline,
}
use quest_vd_wired.Control.Connection.{
  finish, clean_up, requeue, perform, select, move, phase_move, todo_move, Move, performs, receives,
  takes_command,
}

-- What belongs to the session, and not to one connection.
abbrev pub SameSession : ControlServer → ControlServer → Type 0
SameSession s s' =
    (s'.machine ≡ s.machine)
    × (s'.active ≡ s.active)
    × (s'.connection_generation ≡ s.connection_generation)

-- The effects that do not fail the machine.
abbrev pub Mild : Effect → Type 0
Mild (fails_machine reason) = ⊥
Mild e = Unit {0}

abbrev pub IsOutdated : ControlServer → Lane → Type 0
IsOutdated s l = is_current s l.epoch ≡ false

abbrev Harmless : ControlServer → Handled → Type 0
Harmless s h = SameSession s h.0

message-Harmless :
    (s : ControlServer) (l : Lane) (f : Frame) (now : ℕ) (t : MessageType)
    → IsOutdated s l
    → Harmless s (on_message s l f now t)
unfolding on_message on_started accept_started on_heartbeat on_stopped on_status on_metrics
    on_suspend on_error
message-Harmless s l f now MessageType.started h = ground arith
message-Harmless s l f now MessageType.heartbeat h = ground arith
message-Harmless s l f now MessageType.stopped h = ground arith
message-Harmless s l f now MessageType.status h = ground arith
message-Harmless s l f now MessageType.metrics h = ground arith
message-Harmless s l f now MessageType.suspend h = ground arith
message-Harmless s l f now MessageType.error h = ground arith
message-Harmless s l f now t h = (refl, refl, refl)

received-Harmless :
    (s : ControlServer) (l : Lane) (r : Received) (now : ℕ)
    → IsOutdated s l
    → Harmless s (on_received s l r now)
unfolding on_received
received-Harmless s l (received f) now h =
    ground (arith, message-Harmless s l f now f.message_type h)
received-Harmless s l r now h = (refl, refl, refl)

command-Harmless :
    (s : ControlServer) (l : Lane) (now : ℕ) → IsOutdated s l → Harmless s (take_command s l now)
unfolding take_command on_command
command-Harmless s l now h = ground arith

select-Harmless :
    (s : ControlServer) (l : Lane) (m : Move) → IsOutdated s l → Harmless s (select s l m)
unfolding select on_tick on_deadline
select-Harmless s l (receives r now) h = ground (arith, received-Harmless s l r now h)
select-Harmless s l (takes_command now) h = ground (arith, command-Harmless s l now h)
select-Harmless s l m h = ground arith

perform-Harmless :
    (s : ControlServer) (l : Lane) (e : Effect) (es : List Effect) (now : ℕ) (works : Bool)
    → IsOutdated s l
    → Mild e
    → Harmless s (perform s l e es now works)
unfolding perform requeue clean_up finish
perform-Harmless s l (fails_machine reason) es now works h k = absurd k
perform-Harmless s l e es now works h k = ground arith

phase-Harmless :
    (s : ControlServer) (l : Lane) (p : Phase) (m : Move)
    → p ≢ greeting
    → IsOutdated s l
    → Harmless s (phase_move s l p m)
unfolding phase_move
phase-Harmless s l greeting m g h = absurd (g refl)
phase-Harmless s l looping m g h = select-Harmless s l m h
phase-Harmless s l p m g h = (refl, refl, refl)

todo-Harmless :
    (s : ControlServer) (l : Lane) (es : List Effect) (m : Move)
    → l.phase ≢ greeting
    → All Mild es
    → IsOutdated s l
    → Harmless s (todo_move s l es m)
unfolding todo_move
todo-Harmless s l [] m g k h = phase-Harmless s l l.phase m g h
todo-Harmless s l (e ∷ es) (performs now works) g (k, ks) h =
    perform-Harmless s l e es now works h k
todo-Harmless s l (e ∷ es) m g k h = (refl, refl, refl)

-- A connection that has said HELLO and is no longer the active one changes neither the machine nor
-- which connection is active, whatever it receives and whatever fails, unless its stop had run into the
-- deadline while the failure was still to be told to the machine.
pub superseded_harmless :
    (s : ControlServer) (l : Lane) (m : Move)
    → l.phase ≢ greeting
    → All Mild l.todo
    → IsOutdated s l
    → SameSession s (move s l m).0
unfolding move
superseded_harmless s l m g k h = todo-Harmless s l l.todo m g k h
