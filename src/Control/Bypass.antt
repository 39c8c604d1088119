-- ===== src/Control/Bypass.antt =====
-- The ends of a connection: through the code behind the loop, or past it.
use quest_vd_wired.Common.{ℕ, ◌≡◌, ◌≢◌, ◌⊎◌, Option, none, some, Bool, true, false, [], ◌∷◌, arith}
use quest_vd_wired.Protocol.Types.{Frame}
use quest_vd_wired.HostState.Machine.{HostState, connected, preparing, transport_lost, fail}
use quest_vd_wired.Control.Types.{
  ControlServer, ControlError, stale_session, Lane, received, looping, ended, is_current,
  is_pending, breaks,
}
use quest_vd_wired.Control.Select.{is_of_session, on_received, Handled}
use quest_vd_wired.Control.Connection.{
  move, todo_move, phase_move, select, perform, clean_up, finish, is_cancelled, receives, performs,
}

-- The active connection, between two turns of its loop.
pub record IsListening (s : ControlServer) (l : Lane) : Type 0 where
  pub looping : l.phase ≡ looping
  pub idle : l.todo ≡ []
  pub current : is_current s l.epoch ≡ true
  pub not_cancelled : is_cancelled s.cancelled l.epoch ≡ false

-- A frame, and the effect behind it.
abbrev pub receive_and_end : ControlServer → Lane → Frame → ℕ → Handled
receive_and_end s l f now =
    let (s₁, l₁) = move s l (receives (received f) now) in move s₁ l₁ (performs now true)

-- A frame of another session ends the connection, but it stays the active one, and the machine stays
-- as it was: the code behind the loop is not run.
pub stale_frame_bypasses :
    (s : ControlServer) (l : Lane) (f : Frame) (now : ℕ)
    → IsListening s l
    → is_of_session s f ≡ false
    → ((receive_and_end s l f now).1.phase ≡ ended (some (stale_session f.session_id)))
      × ((receive_and_end s l f now).0.machine ≡ s.machine)
      × ((receive_and_end s l f now).0.active ≡ some l.epoch)
unfolding move todo_move phase_move select on_received perform finish
stale_frame_bypasses s l f now h k = ground (arith, h.looping, h.idle, h.current, h.not_cancelled)

-- The loop of the active connection breaks, for whatever reason: then no connection is active, the machine is
-- neither preparing nor connected, and if a stop was pending the machine has failed.
pub break_cleans :
    (s : ControlServer) (l : Lane) (e : Option ControlError) (now : ℕ) (works : Bool)
    → l.todo ≡ breaks e ∷ []
    → is_current s l.epoch ≡ true
    → ((move s l (performs now works)).0.active ≡ none)
      × ((move s l (performs now works)).0.machine.state ≢ connected)
      × ((move s l (performs now works)).0.machine.state ≢ preparing)
      × ((is_pending l.pending_stop ≡ false)
          ⊎ ((move s l (performs now works)).0.machine.state ≡ HostState.error))
unfolding move todo_move perform clean_up transport_lost fail
break_cleans s l e now works h k = ground arith
