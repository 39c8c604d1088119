-- ===== src/Tests/Control.antt =====
-- The control server with a connection that says HELLO, is superseded, and is asked to stop.
use quest_vd_wired.Common.{
  ℕ, ◌+◌, ◌≡◌, ◌≢◌, ◌⊎◌, refl, none, some, true, false, List, [], ◌∷◌, arith, replicate, ok,
}
use quest_vd_wired.Protocol.Types.{SessionId, MessageType, Frame}
use quest_vd_wired.HostState.Machine.{HostState, StateMachine, connected, preparing}
use quest_vd_wired.Control.Types.{
  ControlServer, stale_session, ControlCommand, Lane, new_lane, looping, ended, received, breaks,
}
use quest_vd_wired.Control.Connection.{new_server, move, greets, performs, receives, takes_command}
use quest_vd_wired.Control.Run.{System, Step, accepts, on, asks, system_step, system_run}
use quest_vd_wired.Control.Superseded.{SameSession, superseded_harmless}
use quest_vd_wired.Control.Epochs.{IsPast, system_run-IsPast}
use quest_vd_wired.Control.Bypass.{receive_and_end, stale_frame_bypasses, break_cleans}
use quest_vd_wired.Control.Requests.{is_tidy}
use quest_vd_wired.Control.Accounts.{everywhere, accepted, request_accounted}

abbrev session : SessionId
session = record { bytes = replicate 16 7 }

abbrev other_session : SessionId
other_session = record { bytes = replicate 16 8 }

abbrev frame : MessageType → SessionId → Frame
frame t id = record { message_type = t; session_id = id; payload = [] }

abbrev machine : StateMachine
machine = record {
  state = connected;
  session_id = some session;
  last_heartbeat = some 5;
  missed_heartbeats = 0;
  reason = none;
}

abbrev server : ControlServer
server = record {
  session_id = session;
  machine = machine;
  active = some 2;
  cancelled = 1 ∷ [];
  connection_generation = 2;
  heartbeats_echoed = 0;
  invalid_heartbeats = 0;
  invalid_metrics = 0;
  android = none;
  commands = [];
  answers = [];
  observations = [];
}

abbrev listening : ℕ → Lane
listening epoch = record new_lane { phase = looping; epoch = epoch }

abbrev begun : System
begun = record { server = server; lanes = listening 1 ∷ listening 2 ∷ [] }

abbrev a_stop : ControlCommand
a_stop = record { deadline = 100; result = 9 }

-- A stop is asked for, taken, told to the peer and acknowledged; another connection comes.
abbrev steps : List Step
steps =
    asks a_stop
    ∷ on 1 (takes_command 6)
    ∷ on 1 (performs 6 true)
    ∷ on 1 (performs 6 true)
    ∷ on 1 (receives (received (frame MessageType.stopped session)) 7)
    ∷ accepts
    ∷ on 2 (greets (received (frame MessageType.hello session)))
    ∷ []

created :
    new_server true session
    ≡ ok (record server {
      machine = record machine { state = preparing; last_heartbeat = none };
      active = none;
      cancelled = [];
      connection_generation = 0;
    })
unfolding new_server
created = refl

stopped_at_last : (system_run begun steps).server.machine.state ≡ HostState.stopped
unfolding system_run system_step
stopped_at_last = refl

replaced : (system_run begun steps).server.active ≡ some 3
unfolding system_run system_step
replaced = refl

superseded_harmless_example :
    SameSession server
      (move server (listening 1) (receives (received (frame MessageType.suspend session)) 7)).0
superseded_harmless_example =
    superseded_harmless server (listening 1)
      (receives (received (frame MessageType.suspend session)) 7) (ground arith) tt refl

system_run-IsPast_example : IsPast 1 (system_run begun steps).server
system_run-IsPast_example =
    system_run-IsPast 1 begun steps (omega arith)
      (record { numbered = omega arith; not_current = refl })

stale_frame_bypasses_example :
    ((receive_and_end server (listening 2) (frame MessageType.status other_session) 7).1.phase
      ≡ ended (some (stale_session other_session)))
    × ((receive_and_end server (listening 2) (frame MessageType.status other_session) 7).0.machine
        ≡ machine)
    × ((receive_and_end server (listening 2) (frame MessageType.status other_session) 7).0.active
        ≡ some 2)
stale_frame_bypasses_example =
    stale_frame_bypasses server (listening 2) (frame MessageType.status other_session) 7
      (record { looping = refl; idle = refl; current = refl; not_cancelled = refl }) refl

abbrev breaking : Lane
breaking = record (listening 2) { todo = breaks none ∷ [] }

break_cleans_example :
    ((move server breaking (performs 7 true)).0.active ≡ none)
    × ((move server breaking (performs 7 true)).0.machine.state ≢ connected)
    × ((move server breaking (performs 7 true)).0.machine.state ≢ preparing)
    × ((false ≡ false)
        ⊎ ((move server breaking (performs 7 true)).0.machine.state ≡ HostState.error))
break_cleans_example = break_cleans server breaking none 7 true refl refl

request_accounted_example :
    everywhere (system_run begun steps) 9 ≡ everywhere begun 9 + accepted begun steps 9
unfolding is_tidy
request_accounted_example = request_accounted begun steps 9 (refl, (refl, tt))
