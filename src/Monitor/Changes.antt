-- ===== src/Monitor/Changes.antt =====
-- What tasks do to the monitor's state: `AdbHealthMonitor` of
-- host-rust/crates/gnirehtet-vd/src/runtime.rs. A change that writes the recovery and then the status,
-- under a lock each, is one step here; Recovery/Run has the interleavings between the two.
use quest_vd_wired.Common.{ℕ, Bool, false, Option, String}
use quest_vd_wired.Liveness.Policy.{
  AndroidLiveness, connected, ineligible, silent, observed, restarted,
}
use quest_vd_wired.Recovery.State.{AdbHealthMonitor, TransportRecoveryTrigger}
use quest_vd_wired.Recovery.Status.{update_status}
use quest_vd_wired.Recovery.Monitor.{
  notify_host_resume, rearm_failed_transport_from_authenticated_control,
  schedule_transport_recovery_rearm_after, fire_rearm, wait_for_recovery_device,
  begin_transport_recovery_attempt, finish_transport_recovery_attempt,
  complete_authenticated_transport_recovery, expire_transport_recovery_control,
  note_usb_disconnected, notify_usb_reconnected_if_needed, begin_suppress_repairs,
  notify_authenticated_connection, count_one, record_mapping_probe,
}

-- What `update_android_liveness` is called with.
pub data Transition : Type 0 where
  is_connected is_ineligible : Transition
  is_silent : ℕ → Transition
  is_observed : Bool → ℕ → Transition
  is_restarted : ℕ → Transition

pub data Change : Type 0 where
  updates : (active device_available mappings_healthy : Bool) → Option String → Change
  probes : ℕ → Change
  counts_repair takes_notice notifies : Change
  lives : Transition → Change
  resumes rearms_authenticated waits begins completes disconnects reconnects suppresses : Change
  schedules : ℕ → Change
  fires : ℕ → TransportRecoveryTrigger → Change
  finishes : ℕ → Bool → Change
  expires : ℕ → ℕ → Change

unfoldable pub update_android_liveness : AndroidLiveness → Transition → AndroidLiveness
unfolding connected ineligible silent observed restarted
update_android_liveness l is_connected = connected l
update_android_liveness l is_ineligible = ineligible l
update_android_liveness l (is_silent now) = silent l now
update_android_liveness l (is_observed awake now) = observed l awake now
update_android_liveness l (is_restarted now) = restarted l now

unfoldable pub change : AdbHealthMonitor → Change → AdbHealthMonitor
unfolding update_status record_mapping_probe notify_authenticated_connection update_android_liveness
    notify_host_resume rearm_failed_transport_from_authenticated_control wait_for_recovery_device
    begin_transport_recovery_attempt complete_authenticated_transport_recovery note_usb_disconnected
    notify_usb_reconnected_if_needed begin_suppress_repairs schedule_transport_recovery_rearm_after
    fire_rearm finish_transport_recovery_attempt expire_transport_recovery_control
change m (updates active device_available mappings_healthy last_error) =
    (update_status m active device_available mappings_healthy last_error).0
change m (probes duration) = record_mapping_probe m duration
change m counts_repair = record m { reconnect_generation = count_one m.reconnect_generation }
change m takes_notice = record m { authenticated_reconcile = false }
change m notifies = notify_authenticated_connection m
change m (lives t) = record m { android_liveness = update_android_liveness m.android_liveness t }
change m resumes = (notify_host_resume m).0
change m rearms_authenticated = (rearm_failed_transport_from_authenticated_control m).0
change m waits = wait_for_recovery_device m
change m begins = (begin_transport_recovery_attempt m).0
change m completes = (complete_authenticated_transport_recovery m).0
change m disconnects = note_usb_disconnected m
change m reconnects = (notify_usb_reconnected_if_needed m).0
change m suppresses = begin_suppress_repairs m
change m (schedules g) = (schedule_transport_recovery_rearm_after m g).0
change m (fires g t) = (fire_rearm m g t).0
change m (finishes g succeeded) = (finish_transport_recovery_attempt m g succeeded).0
change m (expires g attempt) = (expire_transport_recovery_control m g attempt).0
