-- ===== src/Control/Types.antt =====
-- The data of control.rs: the state that the handlers share, and the state of one handler.
use quest_vd_wired.Common.{
  ℕ, ◌+◌, ◌%◌, ◌^◌, Option, none, some, Bool, true, false, List, [], ◌∷◌, String, ◌==◌,
}
use quest_vd_wired.Protocol.Types.{SessionId, MessageType, ProtocolError, Frame}
use quest_vd_wired.Protocol.Metrics.{AndroidMetricsV1}
use quest_vd_wired.HostState.Machine.{StateMachine, TransitionError}

pub data ControlError : Type 0 where
  non_loopback_bind : ControlError
  expected_hello : ControlError
  stale_session : SessionId → ControlError
  replacement_during_stop : ControlError
  unexpected_message : MessageType → ControlError
  unsolicited_stopped : ControlError
  read_timeout : String → ControlError
  invalid_heartbeat_payload : ℕ → ControlError
  invalid_started_payload : ℕ → ControlError
  invalid_suspend_payload : ℕ → ControlError
  protocol : ProtocolError → ControlError
  transition : TransitionError → ControlError

-- The sender of the result is named by a number.
pub record ControlCommand : Type 0 where
  pub deadline : ℕ
  pub result : ℕ

-- Why a stop was refused: a text of the server, or the text of a transition error.
pub data Refusal : Type 0 where
  because : String → Refusal
  rejected : TransitionError → Refusal

-- What is sent to a requester: success, or the reason of the refusal.
pub record Answer : Type 0 where
  pub request : ℕ
  pub refusal : Option Refusal

pub record PendingStop : Type 0 where
  pub sender : Option ℕ
  pub deadline : Option ℕ

abbrev pub no_stop : PendingStop
no_stop = record { sender = none; deadline = none }

abbrev pub is_some {ℓ} : {A : Type ℓ} → Option A → Bool
is_some none = false
is_some (some a) = true

abbrev pub is_pending : PendingStop → Bool
is_pending p = is_some p.sender

pub data ControlReadMode : Type 0 where
  active_mode suspended_mode : ControlReadMode

-- What the three observers are told.
pub data Observation : Type 0 where
  published : StateMachine → Observation
  woken asleep : Observation

-- The fields of `ControlServer`, the watch channels that were set, and what was sent: answers to
-- requesters and observations, the newest first.
pub record ControlServer : Type 0 where
  pub session_id : SessionId
  pub machine : StateMachine
  pub active : Option ℕ
  pub cancelled : List ℕ
  pub connection_generation : ℕ
  pub heartbeats_echoed : ℕ
  pub invalid_heartbeats : ℕ
  pub invalid_metrics : ℕ
  pub android : Option AndroidMetricsV1
  pub commands : List ControlCommand
  pub answers : List Answer
  pub observations : List Observation

-- What a handler still has to do before it selects again. `breaks` is the end of the loop, with the
-- code behind it; `returns` is a `?` inside the loop, which leaves the function.
pub data Effect : Type 0 where
  publishes forgets_metrics counts_echo reads_next : Effect
  writes_hello_ack : Effect
  writes : Frame → Effect
  writes_status : SessionId → StateMachine → Effect
  writes_current_status : SessionId → Effect
  fails_machine : String → Effect
  requeues : ControlCommand → Effect
  breaks : Option ControlError → Effect
  returns : ControlError → Effect
  finishes : Option ControlError → Effect

pub data Phase : Type 0 where
  greeting looping panicked : Phase
  ended : Option ControlError → Phase

-- One run of `handle`.
pub record Lane : Type 0 where
  pub phase : Phase
  pub epoch : ℕ
  pub pending_stop : PendingStop
  pub peer_suspended : Bool
  pub read_mode : ControlReadMode
  pub todo : List Effect

abbrev pub new_lane : Lane
new_lane = record {
  phase = greeting;
  epoch = 0;
  pending_stop = no_stop;
  peer_suspended = false;
  read_mode = active_mode;
  todo = [];
}

-- A frame of the reader task: the channel closed, the peer hung up (an end of the stream or a reset),
-- another error, or a frame.
pub data Received : Type 0 where
  closed hung_up : Received
  refused : ControlError → Received
  received : Frame → Received

-- `fetch_add(1)` of an `AtomicU64`.
abbrev pub count_one : ℕ → ℕ
count_one n = (n + 1) % 2 ^ 64

abbrev pub is_current : ControlServer → ℕ → Bool
is_current s epoch = elim s.active [ none ↦ false | some e ↦ e == epoch ]

-- `PendingStop::complete` and `PendingStop::fail`.
unfoldable pub answer : Option ℕ → Option Refusal → List Answer → List Answer
answer none refusal sent = sent
answer (some r) refusal sent = record { request = r; refusal = refusal } ∷ sent

abbrev pub do_next : Lane → List Effect → Lane
do_next l effects = record l { todo = effects }
