-- ===== src/Adb/Types.antt =====
-- The data of adb.rs, the executor that runs adb, and `AdbController`.
use quest_vd_wired.Common.{ℕ, ◌*◌, Bool, true, false, ◌==◌, List, [], ◌∷◌, min, max}
use quest_vd_wired.Protocol.Types.{SessionId}
use quest_vd_wired.Adb.Actions.{Act}

pub record ReverseMapping : Type 0 where
  pub remote : ℕ
  pub local : ℕ

abbrev pub socks_port : ℕ
socks_port = 31416

abbrev pub control_port : ℕ
control_port = 31417

abbrev pub udp_stream_port : ℕ
udp_stream_port = 31418

-- The control lane's comes last.
abbrev pub reverse_mappings : List ReverseMapping
reverse_mappings =
    record { remote = socks_port; local = socks_port }
    ∷ record { remote = udp_stream_port; local = udp_stream_port }
    ∷ record { remote = control_port; local = control_port }
    ∷ []

-- An exit status is an `i32`, of which the code asks only whether it is 0: `code` is its bits.
pub record AdbOutput : Type 0 where
  pub status : ℕ
  pub stdout : List ℕ
  pub stderr : List ℕ

abbrev pub is_success : AdbOutput → Bool
is_success o = o.status == 0

-- An I/O error is the text that it shows.
pub data AdbError : Type 0 where
  spawn : (program source : List ℕ) → AdbError
  timeout : ℕ → AdbError
  wait_failed : List ℕ → AdbError
  containment : List ℕ → AdbError
  read_failed : List ℕ → AdbError
  command_failed : (status : ℕ) (stderr : List ℕ) → AdbError
  device_not_ready : List ℕ → AdbError
  vpn_still_active : AdbError

-- A message of a failed transaction, as what it is formatted from.
pub data Failure : Type 0 where
  plain : AdbError → Failure
  missing_after_add : List ReverseMapping → Failure
  missing_after_reinstall : List ReverseMapping → Failure
  missing_after_repair : List ReverseMapping → Failure
  not_verified : AdbError → Failure
  start_rollback : AdbError → Failure
  start_rollback_unverified : AdbError → Failure
  stop_request : AdbError → Failure
  vpn_closure : AdbError → Failure
  force_stop : AdbError → Failure
  remove_exited : (remote : ℕ) → AdbOutput → Failure
  remove_failed : (remote : ℕ) → AdbError → Failure
  mappings_remain : List (List ℕ × List ℕ) → Failure
  removal_unverified : AdbError → Failure
  not_a_product_mapping : ReverseMapping → Failure
  version_differs : Failure

-- The `&'static str` of a transaction.
pub data Phase : Type 0 where
  device_check device_wake reverse_setup reverse_verify android_start stop_phase start_quiesce
        start_force_quiesce unresponsive_stop repair_probe repair control_stop resume_reverse_remove
        resume_reverse_setup apk_probe apk_install apk_verify :
      Phase

pub record TransactionError : Type 0 where
  pub phase : Phase
  pub failures : List Failure

abbrev pub single : Phase → AdbError → TransactionError
single phase failure = record { phase = phase; failures = plain failure ∷ [] }

pub record MappingHealth : Type 0 where
  pub missing : List ReverseMapping

abbrev pub no_mappings : List ReverseMapping → Bool
no_mappings [] = true
no_mappings (m ∷ ms) = false

abbrev pub is_healthy : MappingHealth → Bool
is_healthy h = no_mappings h.missing

pub record StartReceipt : Type 0 where
  pub session_id : SessionId
  pub all_traffic : Bool
  pub allowed_package : List ℕ
  pub mappings : List ReverseMapping

-- `AdbExecutor`, with the clock and the sleep of the system. The world is whatever a call may change:
-- the headset, the adb server and the time.
pub record Executor : Type 1 where
  pub World : Type 0
  pub execute : List (List ℕ) → ℕ → Act World AdbError AdbOutput
  pub recover_server : ℕ → Act World AdbError (Unit {0})
  pub now : World → ℕ × World
  pub sleep : ℕ → World → World

-- Durations are in nanoseconds.
pub record AdbController : Type 1 where
  pub executor : Executor
  pub device_timeout : ℕ
  pub command_timeout : ℕ
  pub mapping_timeout : ℕ
  pub install_timeout : ℕ
  pub stop_timeout : ℕ
  pub poll_interval : ℕ

abbrev pub seconds : ℕ → ℕ
seconds n = n * 1000000000

abbrev pub adb_device_command_timeout : ℕ
adb_device_command_timeout = seconds 8

abbrev pub adb_mapping_command_timeout : ℕ
adb_mapping_command_timeout = seconds 3

abbrev pub adb_install_timeout : ℕ
adb_install_timeout = seconds 90

abbrev pub with_timing : Executor → ℕ → ℕ → ℕ → AdbController
with_timing executor command_timeout stop_timeout poll_interval = record {
  executor = executor;
  device_timeout = command_timeout;
  command_timeout = command_timeout;
  mapping_timeout = min command_timeout adb_mapping_command_timeout;
  install_timeout = max command_timeout adb_install_timeout;
  stop_timeout = stop_timeout;
  poll_interval = poll_interval;
}

-- `AdbController::new`
abbrev pub new_controller : Executor → AdbController
new_controller executor = record (with_timing executor (seconds 8) (seconds 5) 100000000) {
  device_timeout = adb_device_command_timeout;
}

abbrev pub with_mapping_timeout : AdbController → ℕ → AdbController
with_mapping_timeout c limit = record c { mapping_timeout = min c.mapping_timeout limit }
