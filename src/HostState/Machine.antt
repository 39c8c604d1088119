-- ===== src/HostState/Machine.antt =====
-- `StateMachine` and its operations. An operation that may fail returns the new machine or an error,
-- and on an error the caller keeps the machine that it had.
use quest_vd_wired.Common.{
  ℕ, ◌-◌, ◌/◌, ◌^◌, Option, none, some, Bool, true, false, ◌&&◌, ◌||◌, not, List, [], ◌∷◌, String,
  str_eq, leb, min, bytes_eq, if◌then◌else◌, Outcome, ok, ◌>>◌, reject_if,
}
use quest_vd_wired.Protocol.Types.{SessionId}

pub data HostState : Type 0 where
  stopped preparing connected degraded stopping error : HostState

pub record StateMachine : Type 0 where
  pub state : HostState
  pub session_id : Option SessionId
  pub last_heartbeat : Option ℕ
  pub missed_heartbeats : ℕ
  pub reason : Option String

pub data TransitionError : Type 0 where
  invalid_state : HostState → List HostState → TransitionError
  session_mismatch : Option SessionId → SessionId → TransitionError

-- `HEARTBEAT_INTERVAL.as_millis()`
abbrev pub heartbeat_interval_ms : ℕ
heartbeat_interval_ms = 1000

abbrev pub heartbeat_miss_limit : ℕ
heartbeat_miss_limit = 3

abbrev pub headset_suspended_reason : String
headset_suspended_reason = "headset is asleep; VPN remains active"

abbrev pub missed_reason : String
missed_reason = "three heartbeat intervals missed; VPN remains active"

-- `==` of two states.
abbrev pub state_eq : HostState → HostState → Bool
state_eq stopped stopped = true
state_eq preparing preparing = true
state_eq connected connected = true
state_eq degraded degraded = true
state_eq stopping stopping = true
state_eq error error = true
state_eq _ _ = false

abbrev pub contains : List HostState → HostState → Bool
contains [] s = false
contains (x ∷ xs) s = state_eq x s || contains xs s

-- `self.reason.as_deref() == Some(HEADSET_SUSPENDED_REASON)`
unfoldable pub is_suspended_reason : Option String → Bool
is_suspended_reason none = false
is_suspended_reason (some r) = str_eq r headset_suspended_reason

unfoldable pub new : StateMachine
new = record {
  state = stopped;
  session_id = none;
  last_heartbeat = none;
  missed_heartbeats = 0;
  reason = none;
}

abbrev pub session_matches : Option SessionId → SessionId → Bool
session_matches none actual = false
session_matches (some expected) actual = bytes_eq expected.bytes actual.bytes

unfoldable pub require_session : StateMachine → SessionId → Outcome TransitionError (Unit {0})
require_session m actual =
    reject_if (not (session_matches m.session_id actual)) (session_mismatch m.session_id actual)

unfoldable pub require_state : StateMachine → List HostState → Outcome TransitionError (Unit {0})
require_state m expected =
    reject_if (not (contains expected m.state)) (invalid_state m.state expected)

unfoldable pub begin_start : StateMachine → SessionId → Outcome TransitionError StateMachine
unfolding require_state
begin_start m session_id = do
  require_state m (stopped ∷ error ∷ [])
  ok (record {
    state = preparing;
    session_id = some session_id;
    last_heartbeat = none;
    missed_heartbeats = 0;
    reason = none;
  })

unfoldable pub peer_started : StateMachine → SessionId → ℕ → Outcome TransitionError StateMachine
unfolding require_session require_state
peer_started m session_id now = do
  require_session m session_id
  require_state m (preparing ∷ connected ∷ degraded ∷ [])
  ok (record m {
    state = connected;
    last_heartbeat = some now;
    missed_heartbeats = 0;
    reason = none;
  })

unfoldable pub heartbeat : StateMachine → SessionId → ℕ → Outcome TransitionError StateMachine
unfolding require_session require_state
heartbeat m session_id now = do
  require_session m session_id
  let suspended = state_eq m.state degraded && is_suspended_reason m.reason
  let resumed =
      require_state m (connected ∷ degraded ∷ [])
      >> ok (record m {
        state = connected;
        last_heartbeat = some now;
        missed_heartbeats = 0;
        reason = none;
      })
  if suspended then ok (record m { last_heartbeat = some now; missed_heartbeats = 0 }) else resumed

-- `now.saturating_duration_since(last).as_millis() / HEARTBEAT_INTERVAL.as_millis()`, cut to `u32`.
abbrev pub missed_intervals : ℕ → ℕ → ℕ
missed_intervals now last = min ((now - last) / 1000000 / heartbeat_interval_ms) (2 ^ 32 - 1)

unfoldable pub tick : StateMachine → ℕ → StateMachine
tick m now = if not (state_eq m.state connected) then m else elim m.last_heartbeat [
  | none ↦ m
  | some last ↦
      let missed = missed_intervals now last in
      if leb heartbeat_miss_limit missed
      then record m { missed_heartbeats = missed; state = degraded; reason = some missed_reason }
      else record m { missed_heartbeats = missed }
]

unfoldable pub transport_lost : StateMachine → String → StateMachine
transport_lost m reason =
    if state_eq m.state preparing || state_eq m.state connected
    then record m { state = degraded; reason = some reason }
    else if state_eq m.state degraded && not (is_suspended_reason m.reason)
    then record m { reason = some reason }
    else m

unfoldable pub peer_suspended : StateMachine → SessionId → Outcome TransitionError StateMachine
unfolding require_session require_state
peer_suspended m session_id = do
  require_session m session_id
  require_state m (connected ∷ degraded ∷ [])
  ok (record m {
    state = degraded;
    last_heartbeat = none;
    missed_heartbeats = 0;
    reason = some headset_suspended_reason;
  })

unfoldable pub begin_stop : StateMachine → Outcome TransitionError StateMachine
unfolding require_state
begin_stop m = do
  require_state m (preparing ∷ connected ∷ degraded ∷ error ∷ [])
  ok (record m { state = stopping; reason = none })

-- `StateMachine::stopped`
unfoldable pub finish_stop : StateMachine → Outcome TransitionError StateMachine
unfolding require_state
finish_stop m = do
  require_state m (stopping ∷ [])
  ok (record {
    state = stopped;
    session_id = none;
    last_heartbeat = none;
    missed_heartbeats = 0;
    reason = none;
  })

unfoldable pub fail : StateMachine → String → StateMachine
fail m reason = record m { state = error; last_heartbeat = none; reason = some reason }
