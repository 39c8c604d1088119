-- ===== src/Recovery/State.antt =====
-- The recovery's state, and the status that shows it.
use quest_vd_wired.Common.{
  ℕ, ◌+◌, ◌%◌, ◌^◌, Bool, true, false, if◌then◌else◌, Option, none, List, [], String,
}
use quest_vd_wired.Liveness.Policy as Liveness
use quest_vd_wired.Liveness.Policy.{AndroidLiveness}

pub data TransportRecoveryState : Type 0 where
  idle pending waiting_for_device rebuilding_mappings awaiting_control recovered failed :
      TransportRecoveryState

pub data TransportRecoveryTrigger : Type 0 where
  host_resume usb_reconnect : TransportRecoveryTrigger

pub record TransportRecoverySnapshot : Type 0 where
  pub generation : ℕ
  pub attempt : ℕ
  pub state : TransportRecoveryState
  pub trigger : Option TransportRecoveryTrigger

-- `AdbMonitorSnapshot`: the status that `snapshot` shows.
pub record Status : Type 0 where
  pub active : Bool
  pub repair_suppressed : Bool
  pub device_available : Bool
  pub mappings_healthy : Bool
  pub reconnect_generation : ℕ
  pub mapping_probe_count : ℕ
  pub mapping_probe_last_us : ℕ
  pub mapping_probe_max_us : ℕ
  pub transport_recovery : TransportRecoverySnapshot
  pub last_error : Option String

-- Without the operation lock and the notification, which the code around it stands for.
pub record AdbHealthMonitor : Type 0 where
  pub stopping : Bool
  pub authenticated_reconcile : Bool
  pub reconnect_generation : ℕ
  pub mapping_probe_count : ℕ
  pub mapping_probe_last_us : ℕ
  pub mapping_probe_max_us : ℕ
  pub recovery : TransportRecoverySnapshot
  pub auto_rearm_generation : ℕ
  pub rearm_scheduled : List ℕ
  pub usb_reconnect_pending : Bool
  pub android_liveness : AndroidLiveness
  pub status : Status

abbrev pub max_attempts : ℕ
max_attempts = 2

-- `wrapping_add(1)` on `u64`.
abbrev pub next_generation : ℕ → ℕ
next_generation g = (g + 1) % 2 ^ 64

abbrev pub default_recovery : TransportRecoverySnapshot
default_recovery = record { generation = 0; attempt = 0; state = idle; trigger = none }

abbrev pub default_status : Status
default_status = record {
  active = false;
  repair_suppressed = false;
  device_available = false;
  mappings_healthy = false;
  reconnect_generation = 0;
  mapping_probe_count = 0;
  mapping_probe_last_us = 0;
  mapping_probe_max_us = 0;
  transport_recovery = default_recovery;
  last_error = none;
}

unfoldable pub default : AdbHealthMonitor
unfolding Liveness.default
default = record {
  stopping = false;
  authenticated_reconcile = false;
  reconnect_generation = 0;
  mapping_probe_count = 0;
  mapping_probe_last_us = 0;
  mapping_probe_max_us = 0;
  recovery = default_recovery;
  auto_rearm_generation = 0;
  rearm_scheduled = [];
  usb_reconnect_pending = false;
  android_liveness = Liveness.default;
  status = default_status;
}

abbrev pub is_unrecovered : TransportRecoveryState → Bool
is_unrecovered pending = true
is_unrecovered waiting_for_device = true
is_unrecovered rebuilding_mappings = true
is_unrecovered failed = true
is_unrecovered _ = false

abbrev pub is_failed : TransportRecoveryState → Bool
is_failed failed = true
is_failed _ = false

abbrev pub is_awaiting : TransportRecoveryState → Bool
is_awaiting awaiting_control = true
is_awaiting _ = false

abbrev pub is_startable : TransportRecoveryState → Bool
is_startable pending = true
is_startable waiting_for_device = true
is_startable _ = false

-- The program reads the recovery under one lock and writes the status under another: here this is one
-- step, and Recovery/Run adds the writes that come late.
unfoldable pub sync_transport_recovery_status : AdbHealthMonitor → Option String → AdbHealthMonitor
sync_transport_recovery_status m last_error =
    let shown = m.status in
    record m {
      status = record shown {
        transport_recovery = m.recovery;
        mappings_healthy =
            if is_unrecovered m.recovery.state then false else m.status.mappings_healthy;
        last_error = last_error;
      };
    }
