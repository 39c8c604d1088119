-- ===== src/Recovery/Status.antt =====
-- How the status is written: `update_status` of
-- host-rust/crates/gnirehtet-vd/src/runtime.rs.
use quest_vd_wired.Common.{
  ℕ, Bool, true, false, ◌&&◌, not, ◌==◌, Option, none, some, String, str_eq,
}
use quest_vd_wired.Recovery.State.{
  TransportRecoveryState, TransportRecoveryTrigger, TransportRecoverySnapshot, Status,
  AdbHealthMonitor, idle, pending, waiting_for_device, rebuilding_mappings, awaiting_control,
  recovered, failed, host_resume, usb_reconnect,
}

abbrev pub bool_eq : Bool → Bool → Bool
bool_eq true b = b
bool_eq false b = not b

-- The place of a state in its declaration.
abbrev state_index : TransportRecoveryState → ℕ
state_index idle = 0
state_index pending = 1
state_index waiting_for_device = 2
state_index rebuilding_mappings = 3
state_index awaiting_control = 4
state_index recovered = 5
state_index failed = 6

abbrev trigger_index : Option TransportRecoveryTrigger → ℕ
trigger_index none = 0
trigger_index (some host_resume) = 1
trigger_index (some usb_reconnect) = 2

abbrev error_eq : Option String → Option String → Bool
error_eq none none = true
error_eq (some a) (some b) = str_eq a b
error_eq _ _ = false

abbrev recovery_eq : TransportRecoverySnapshot → TransportRecoverySnapshot → Bool
recovery_eq a b =
    a.generation == b.generation
    && (a.attempt == b.attempt
        && (state_index a.state == state_index b.state
            && trigger_index a.trigger == trigger_index b.trigger))

-- `==` of two `AdbMonitorSnapshot`s.
unfoldable pub status_eq : Status → Status → Bool
status_eq a b =
    bool_eq a.active b.active
    && (bool_eq a.repair_suppressed b.repair_suppressed
        && (bool_eq a.device_available b.device_available
            && (bool_eq a.mappings_healthy b.mappings_healthy
                && (a.reconnect_generation == b.reconnect_generation
                    && (a.mapping_probe_count == b.mapping_probe_count
                        && (a.mapping_probe_last_us == b.mapping_probe_last_us
                            && (a.mapping_probe_max_us == b.mapping_probe_max_us
                                && (recovery_eq a.transport_recovery b.transport_recovery
                                    && error_eq a.last_error b.last_error))))))))

-- With whether the status changed.
unfoldable pub update_status :
    AdbHealthMonitor → Bool → Bool → Bool → Option String → AdbHealthMonitor × Bool
unfolding status_eq
update_status m active device_available mappings_healthy last_error =
    let next : Status = record {
      active = active;
      repair_suppressed = m.stopping;
      device_available = device_available;
      mappings_healthy = mappings_healthy;
      reconnect_generation = m.reconnect_generation;
      mapping_probe_count = m.mapping_probe_count;
      mapping_probe_last_us = m.mapping_probe_last_us;
      mapping_probe_max_us = m.mapping_probe_max_us;
      transport_recovery = m.recovery;
      last_error = last_error;
    } in
    (record m { status = next }, not (status_eq m.status next))
