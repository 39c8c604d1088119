-- ===== src/HostState/Invariant.antt =====
-- What holds of the machine after any calls.
use quest_vd_wired.Common.{◌≡◌, ◌≢◌, ◌<◌, ◌^◌, none, List, [], ◌∷◌, arith}
use quest_vd_wired.HostState.Machine.{
  StateMachine, stopped, preparing, connected, degraded, error, heartbeat_miss_limit, new,
}
use quest_vd_wired.HostState.Run.{Call, step, run, starts}

pub record IsConsistent (m : StateMachine) : Type 0 where
  pub stopped_forgets : m.state ≡ stopped → (m.session_id ≡ none) × (m.last_heartbeat ≡ none)
  pub preparing_has_session : m.state ≡ preparing → m.session_id ≢ none
  pub connected_has_session : m.state ≡ connected → m.session_id ≢ none
  pub degraded_has_session : m.state ≡ degraded → m.session_id ≢ none
  pub connected_heard : m.state ≡ connected → m.last_heartbeat ≢ none
  pub connected_no_reason : m.state ≡ connected → m.reason ≡ none
  pub connected_in_time : m.state ≡ connected → m.missed_heartbeats < heartbeat_miss_limit
  pub degraded_reason : m.state ≡ degraded → m.reason ≢ none
  pub error_reason : m.state ≡ error → m.reason ≢ none
  pub missed_is_u32 : m.missed_heartbeats < 2 ^ 32

new-IsConsistent : IsConsistent new
unfolding new
new-IsConsistent = ground arith

pub step-IsConsistent : (m : StateMachine) (c : Call) → IsConsistent m → IsConsistent (step m c)
unfolding step
step-IsConsistent m (starts s) h = ground arith
step-IsConsistent m c h = ground arith

run-IsConsistent : (m : StateMachine) (cs : List Call) → IsConsistent m → IsConsistent (run m cs)
unfolding run
run-IsConsistent m [] h = h
run-IsConsistent m (c ∷ cs) h = run-IsConsistent (step m c) cs (step-IsConsistent m c h)

-- Whatever calls were made of a new machine, it is consistent: a session that is preparing,
-- connected or degraded has an identifier, a connected one has been heard of, has missed fewer than
-- three heartbeats and gives no reason, a degraded or failed one gives a reason, and a stopped one
-- has forgotten its session.
pub run-new-IsConsistent : (cs : List Call) → IsConsistent (run new cs)
run-new-IsConsistent cs = run-IsConsistent new cs new-IsConsistent
