-- ===== src/Monitor/Closed.antt =====
-- Only the control lane opens the relay.
use quest_vd_wired.Common.{◌≡◌, ◌≢◌, refl, Bool, false, Option, List, String, arith, ℕ, All}
use quest_vd_wired.Protocol.Types.{SessionId}
use quest_vd_wired.HostState.Machine.{HostState, StateMachine, connected, transport_lost}
use quest_vd_wired.Relay.Controller.{
  RelayGateController, Call, connects, suspends, suspends_if, wakes, degrades, expires,
  goes_inactive, goes_inactive_recovering, loses_carrier, loses_carrier_recovering, regains_carrier,
}
use quest_vd_wired.Relay.Controller as Relay
use quest_vd_wired.Relay.Gate.{set_enabled, wait_for_activation, invalidate_and_wait_for_activation}
use quest_vd_wired.Control.Connection.{request_stop, cancel_active, lose_carrier}
use quest_vd_wired.Control.Run.{system_step, accepts, on, asks, cancels, loses}
use quest_vd_wired.Adb.Types.{AdbController}
use quest_vd_wired.Monitor.Shared.{
  Shared, gate_on, update_relay_gate, observe, observe_all, step_control, Action, gate_call,
  control_step, monitor_change, act,
}
use quest_vd_wired.Monitor.Host.{Host}
use quest_vd_wired.Monitor.Loop.{Attempt, run_turns}
use quest_vd_wired.Monitor.Keeps.Waits.{Kept, Own}
use quest_vd_wired.Monitor.Keeps.Turns.{run_turns-keeps}

-- What can happen while no control connection is served: not the calls of the gate that a connection
-- makes, nor its moves.
abbrev pub IsUnserved : Action → Type 0
IsUnserved (gate_call connects) = ⊥
IsUnserved (control_step (on k m)) = ⊥
IsUnserved _ = Unit {0}

pub record IsClosed (s : Shared) : Type 0 where
  pub shut : s.gate.gate.enabled ≡ false
  pub unauthenticated : s.gate.control_authenticated ≡ false

gate-IsClosed :
    (c : RelayGateController) (x : Call)
    → IsUnserved (gate_call x)
    → c.gate.enabled ≡ false
    → c.control_authenticated ≡ false
    → ((Relay.step c x).gate.enabled ≡ false) × ((Relay.step c x).control_authenticated ≡ false)
unfolding Relay.step set_enabled wait_for_activation invalidate_and_wait_for_activation
gate-IsClosed c connects u p q = absurd u
gate-IsClosed c x u p q = ground arith

-- A loss of the carrier never leaves the lifecycle connected.
pub transport_lost-ne-connected :
    (m : StateMachine) (r : String) → (transport_lost m r).state ≢ connected
unfolding transport_lost
transport_lost-ne-connected m r = ground arith

gate_on-IsClosed :
    (x : HostState) (r : Option String) (c : RelayGateController)
    → x ≢ connected
    → c.gate.enabled ≡ false
    → c.control_authenticated ≡ false
    → ((gate_on x r c).gate.enabled ≡ false) × ((gate_on x r c).control_authenticated ≡ false)
unfolding gate_on set_enabled invalidate_and_wait_for_activation
gate_on-IsClosed connected r c n p q = absurd (n refl)
gate_on-IsClosed x r c n p q = ground arith

loses-IsClosed : (s : Shared) (r : String) → IsClosed s → IsClosed (step_control s (loses r))
unfolding step_control system_step observe_all observe update_relay_gate lose_carrier
loses-IsClosed s r h =
    let m = transport_lost s.control.server.machine r in
    let n = transport_lost-ne-connected s.control.server.machine r in
    ground (arith, gate_on-IsClosed m.state m.reason s.gate)

act-IsClosed : (s : Shared) (a : Action) → IsUnserved a → IsClosed s → IsClosed (act s a)
unfolding act step_control system_step observe_all request_stop cancel_active
act-IsClosed s (gate_call x) u h =
    let (p, q) = gate-IsClosed s.gate x u h.shut h.unauthenticated in
    record { shut = p; unauthenticated = q }
act-IsClosed s (control_step (on k m)) u h = absurd u
act-IsClosed s (control_step (loses r)) u h = loses-IsClosed s r h
act-IsClosed s (control_step accepts) u h = record {
  shut = h.shut;
  unauthenticated = h.unauthenticated;
}
act-IsClosed s (control_step cancels) u h = record {
  shut = h.shut;
  unauthenticated = h.unauthenticated;
}
act-IsClosed s (control_step (asks x)) u h = ground arith
act-IsClosed s (monitor_change x) u h = record {
  shut = h.shut;
  unauthenticated = h.unauthenticated;
}

own-IsUnserved : (a : Action) → Own a → IsUnserved a
own-IsUnserved (gate_call connects) o = o
own-IsUnserved (gate_call x) o = tt
own-IsUnserved (control_step (on k m)) o = o
own-IsUnserved (control_step x) o = tt
own-IsUnserved (monitor_change x) o = tt

pub IsClosed-Kept : Kept IsClosed IsUnserved
IsClosed-Kept = record {
  own = λ s a o. act-IsClosed s a (own-IsUnserved a o);
  other = act-IsClosed;
}

-- While no control connection is served, a gate that is closed and not authenticated stays so through
-- any turns of the loop: no repair of the mappings, no rebuilt transport, no restart of the product and
-- no timer opens the relay.
pub run_turns-IsClosed :
    (c : AdbController) (session_id : SessionId) (all_traffic : Bool) (turns : List Attempt)
    (backoff : ℕ) (h : Host c)
    → All (All IsUnserved) h.others
    → IsClosed h.shared
    → IsClosed (run_turns c session_id all_traffic turns backoff h).shared
run_turns-IsClosed c session_id all_traffic turns backoff h w p =
    (run_turns-keeps c IsClosed-Kept session_id all_traffic turns backoff h
      (record { held = p; waiting = w })).held
