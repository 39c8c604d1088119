-- ===== src/Lifecycle/Platform.antt =====
-- What the lifecycle commands of main.rs ask of the system and of the daemon.
use quest_vd_wired.Common.{ℕ, Bool, Option, List, String}
use quest_vd_wired.Protocol.Types.{SessionId}
use quest_vd_wired.HostState.Machine.{HostState}

-- What `start` sees of the daemon at one poll of the status file: the lifecycle's session as a text and
-- its state, and whether the daemon has exited (or cannot be asked).
pub record Poll : Type 0 where
  pub session_id : Option (List ℕ)
  pub state : HostState
  pub has_exited : Bool

-- What it sees while the runtime is not ready.
pub record ReadyPoll : Type 0 where
  pub is_running : Bool
  pub is_ready : Bool

-- A `StateSnapshot` that is written when a command ends.
pub record Snapshot : Type 0 where
  pub state : HostState
  pub session_id : Option (List ℕ)
  pub reason : Option String

-- `AdminResponse`, as far as it is read: an error as a text.
pub record DaemonReply : Type 0 where
  pub accepted : Bool
  pub repairs_suppressed : Bool

pub data Command : Type 0 where
  stop_command shutdown_command : Command

-- Files, processes and the administration pipe. A call that may fail says whether it succeeded. The
-- polls are those that come before the deadline.
pub record Platform (W : Type 0) : Type 0 where
  pub acquire_operation : W → Bool × W
  pub read_daemon_pid : W → Option ℕ × W
  pub process_is_running : ℕ → W → Bool × W
  pub runtime_may_be_active : W → Bool × W
  pub materialize_apk : W → Bool × W
  pub apk_path : List ℕ
  pub random_session : W → SessionId × W
  pub spawn_daemon : SessionId → Bool → W → Option ℕ × W
  pub ready_polls : ℕ → W → List ReadyPoll × W
  pub connected_polls : W → List Poll × W
  pub terminate_spawned_daemon : W → Bool × W
  pub admin_command : Command → W → Option DaemonReply × W
  pub terminate_daemon : W → Bool × W
  pub wait_for_daemon_exit : W → Bool × W
  pub remove_daemon_pid : W → W
  pub write_status : Snapshot → W → Bool × W
  pub drain_mapping_command : W → W
