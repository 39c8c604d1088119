-- ===== src/Tests/Monitor.antt =====
-- The monitor's task on an adb that always lists the three mappings.
use quest_vd_wired.Common.{
  ℕ, ◌+◌, ◌≡◌, ◌≢◌, ◌⊎◌, false, refl, true, none, some, List, [], ◌∷◌, codes, arith, inr, replicate,
}
use quest_vd_wired.Protocol.Types.{SessionId}
use quest_vd_wired.HostState.Machine.{connected, transport_lost}
use quest_vd_wired.Relay.Controller.{connects, regains_carrier, degrades}
use quest_vd_wired.Relay.Controller as Relay
use quest_vd_wired.Control.Types.{ControlServer, published}
use quest_vd_wired.Control.Run.{accepts}
use quest_vd_wired.Adb.Actions.{ok}
use quest_vd_wired.Adb.Types.{Executor, AdbController, with_timing}
use quest_vd_wired.Recovery.State.{default, awaiting_control, host_resume, recovered}
use quest_vd_wired.Monitor.Changes.{change, resumes, suppresses, begins}
use quest_vd_wired.Monitor.Shared.{
  Shared, Action, gate_call, control_step, monitor_change, observe, transport_recovery_reason,
}
use quest_vd_wired.Monitor.Arms.{take_notice}
use quest_vd_wired.Monitor.Host.{Host}
use quest_vd_wired.Monitor.Rebuild.{recover_transport, rebuilt}
use quest_vd_wired.Monitor.Loop.{Attempt, tracks, spawn_fails, ticks, notified, run_turns}
use quest_vd_wired.Monitor.Closed.{IsClosed, run_turns-IsClosed}
use quest_vd_wired.Monitor.Admin.{AdminRequest, AdminResponse, handle, dispatch}
use quest_vd_wired.Monitor.Authorized.{handle_authorized}
use quest_vd_wired.Monitor.Rebuilt.{recover_transport-IsClosed}
use quest_vd_wired.Monitor.Reopens.{rebuilt-recovers}

abbrev listing : List ℕ
listing =
    codes "UsbFfs tcp:31416 tcp:31416\nUsbFfs tcp:31418 tcp:31418\nUsbFfs tcp:31417 tcp:31417\n"

-- The world is the time.
abbrev listed : Executor
listed = record {
  World = ℕ;
  execute = λ args limit w. (ok (record { status = 0; stdout = listing; stderr = [] }), w + 1);
  recover_server = λ limit w. (ok tt, w);
  now = λ w. (w, w);
  sleep = λ d w. w + d;
}

abbrev controller : AdbController
controller = with_timing listed 8 5 1

abbrev session : SessionId
session = record { bytes = replicate 16 7 }

abbrev server : ControlServer
server = record {
  session_id = session;
  machine = record {
    state = connected;
    session_id = some session;
    last_heartbeat = some 0;
    missed_heartbeats = 0;
    reason = none;
  };
  active = some 1;
  cancelled = [];
  connection_generation = 1;
  heartbeats_echoed = 0;
  invalid_heartbeats = 0;
  invalid_metrics = 0;
  android = none;
  commands = [];
  answers = [];
  observations = [];
}

abbrev beginning : Shared
beginning = record {
  monitor = default;
  gate = Relay.new;
  control = record { server = server; lanes = [] };
}

-- During the first wait the host resumes and a connection is lost, during the second the stop begins.
abbrev busy : List (List Action)
busy =
    (monitor_change resumes ∷ gate_call degrades ∷ [])
    ∷ (control_step accepts ∷ monitor_change suppresses ∷ [])
    ∷ []

abbrev host : Host controller
host = record { shared = beginning; world = 0; others = busy }

abbrev turns : List Attempt
turns = tracks (ticks ∷ notified ∷ []) ∷ spawn_fails ∷ []

run_turns-IsClosed_example :
    IsClosed (run_turns controller session true turns 250000000 host).shared
unfolding Relay.new
run_turns-IsClosed_example =
    run_turns-IsClosed controller session true turns 250000000 host
      ((tt, (tt, tt)), ((tt, (tt, tt)), tt)) (ground arith)

-- The host has resumed, and the gate is open.
abbrev resumed : Host controller
resumed = record host {
  shared = record {
    monitor = change default resumes;
    gate = Relay.step Relay.new connects;
    control = beginning.control;
  };
}

recover_transport-IsClosed_example : IsClosed (recover_transport controller resumed true).0.shared
unfolding default change
recover_transport-IsClosed_example =
    recover_transport-IsClosed controller true (1, 1, host_resume) resumed refl refl (inr refl)
      ((tt, (tt, tt)), ((tt, (tt, tt)), tt))

abbrev rebuilding : Host controller
rebuilding = record resumed {
  shared = record beginning { monitor = change (change default resumes) begins };
  others = [];
}

rebuilt-recovers_example :
    let r = (rebuilt controller 1 rebuilding).shared in
    let o = observe r (published server.machine) in
    let n = take_notice controller (record rebuilding { shared = o }) in
    (r.control.server.cancelled ≡ 1 ∷ [])
    × (r.control.server.machine ≡ transport_lost server.machine transport_recovery_reason)
    × (r.gate.gate.enabled ≡ false)
    × (r.monitor.recovery.state ≡ awaiting_control)
    × (o.gate.gate.enabled ≡ true)
    × (n.1 ≡ true)
    × (n.2.shared.monitor.recovery.state ≡ recovered)
unfolding default change
rebuilt-recovers_example =
    rebuilt-recovers controller 1 host_resume rebuilding server.machine refl refl refl refl

abbrev secret : List ℕ
secret = codes "token"

abbrev guess : AdminRequest
guess = record { token = codes "tokem"; command = codes "shutdown" }

abbrev outcome : AdminRequest → AdminResponse × Host controller
outcome r = handle controller secret r 1 host

handle_authorized_example :
    (guess.token ≡ secret) × (outcome guess ≡ dispatch controller guess.command 1 host)
    ⊎ ((guess.token ≢ secret)
        × ((outcome guess).1 ≡ host)
        × ((outcome guess).0.accepted ≡ false)
        × ((outcome guess).0.status ≡ none))
handle_authorized_example = handle_authorized controller secret guess 1 host
