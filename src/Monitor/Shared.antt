-- ===== src/Monitor/Shared.antt =====
-- What the tasks of the host share, and how the control server's observers tie its parts together:
-- `update_relay_gate` and the observers that `HostRuntime::run` makes, in
-- host-rust/crates/gnirehtet-vd/src/runtime.rs.
use quest_vd_wired.Common.{
  Bool, true, false, if◌then◌else◌, Option, none, some, List, [], ◌∷◌, String, str_eq,
}
use quest_vd_wired.HostState.Machine.{
  HostState, StateMachine, stopped, preparing, connected, degraded, stopping, error,
}
use quest_vd_wired.Relay.Controller.{
  RelayGateController, control_connected, carrier_lost_awaiting_recovery, control_degraded,
  control_inactive, screen_suspended, authenticated_wake, carrier_healthy,
}
use quest_vd_wired.Relay.Controller as Relay
use quest_vd_wired.Control.Types.{Observation, published, woken, asleep}
use quest_vd_wired.Control.Connection.{control_transport_lost_reason}
use quest_vd_wired.Control.Run as Control
use quest_vd_wired.Control.Run.{system_step}
use quest_vd_wired.Recovery.State.{AdbHealthMonitor}
use quest_vd_wired.Recovery.Monitor.{
  notify_authenticated_connection, rearm_failed_transport_from_authenticated_control,
}
use quest_vd_wired.Control.Types.{is_some}
use quest_vd_wired.Monitor.Changes.{Change, change}

pub record Shared : Type 0 where
  pub monitor : AdbHealthMonitor
  pub gate : RelayGateController
  pub control : Control.System

abbrev pub transport_recovery_reason : String
transport_recovery_reason = "rebuilding the wired transport generation"

abbrev pub reason_is : Option String → String → Bool
reason_is none expected = false
reason_is (some reason) expected = str_eq reason expected

unfoldable pub gate_on : HostState → Option String → RelayGateController → RelayGateController
unfolding control_connected carrier_lost_awaiting_recovery control_degraded control_inactive
gate_on connected reason c = control_connected c
gate_on degraded reason c =
    if reason_is reason transport_recovery_reason
    then carrier_lost_awaiting_recovery c
    else if reason_is reason control_transport_lost_reason
    then (control_degraded c).0
    else c
gate_on stopped reason c = control_inactive c
gate_on stopping reason c = control_inactive c
gate_on error reason c = control_inactive c
gate_on preparing reason c = c

unfoldable pub update_relay_gate : RelayGateController → StateMachine → RelayGateController
unfolding gate_on
update_relay_gate c m = gate_on m.state m.reason c

abbrev pub is_connected : HostState → Bool
is_connected connected = true
is_connected _ = false

-- The state observer's branch for a connected lifecycle.
unfoldable pub on_connected : Shared → Shared
unfolding rearm_failed_transport_from_authenticated_control notify_authenticated_connection
    carrier_healthy
on_connected s =
    let (m, rearmed) = rearm_failed_transport_from_authenticated_control s.monitor in
    record s {
      monitor = notify_authenticated_connection m;
      gate = if is_some rearmed then carrier_healthy s.gate else s.gate;
    }

-- The three observers. The state's is told what was published, the others run when the peer falls
-- asleep and when it wakes.
unfoldable pub observe : Shared → Observation → Shared
unfolding update_relay_gate on_connected screen_suspended authenticated_wake
    notify_authenticated_connection
observe s (published m) =
    let s' : Shared = record s { gate = update_relay_gate s.gate m } in
    if is_connected m.state then on_connected s' else s'
observe s asleep = record s { gate = screen_suspended s.gate }
observe s woken = record s {
  gate = authenticated_wake s.gate;
  monitor = notify_authenticated_connection s.monitor;
}

-- The newest observation comes first in the list.
unfoldable pub observe_all : Shared → List Observation → Shared
unfolding observe
observe_all s [] = s
observe_all s (o ∷ os) = observe (observe_all s os) o

abbrev pub unobserved : Control.System → Control.System
unobserved y = let server = y.server in record y { server = record server { observations = [] } }

-- A step of the control server, with its observers: they run at once, so that the server's list holds
-- the observations of one step.
unfoldable pub step_control : Shared → Control.Step → Shared
unfolding system_step observe_all
step_control s x =
    let y = system_step (unobserved s.control) x in
    observe_all (record s { control = y }) y.server.observations

-- What a task does in one step.
pub data Action : Type 0 where
  gate_call : Relay.Call → Action
  control_step : Control.Step → Action
  monitor_change : Change → Action

unfoldable pub act : Shared → Action → Shared
unfolding Relay.step step_control change
act s (gate_call x) = record s { gate = Relay.step s.gate x }
act s (control_step x) = step_control s x
act s (monitor_change x) = record s { monitor = change s.monitor x }

unfoldable pub act_all : Shared → List Action → Shared
unfolding act
act_all s [] = s
act_all s (a ∷ rest) = act_all (act s a) rest
