-- ===== src/Recovery/Monitor.antt =====
-- The recovery's state and every operation that changes it. The locks are never poisoned, and each
-- operation is one step: the fields are touched by the monitor's task and by timers that check the
-- generation first. Diagnostics and notifications are left out.
use quest_vd_wired.Common.{
  ℕ, ◌+◌, Bool, true, false, ◌&&◌, ◌||◌, not, ltb, leb, ◌==◌, if◌then◌else◌, Option, none, some,
  List, [], ◌∷◌, ◌%◌, ◌^◌, ◌/◌, ◌-◌, min, max,
}
use quest_vd_wired.Recovery.State.{
  TransportRecoveryTrigger, TransportRecoverySnapshot, AdbHealthMonitor, max_attempts,
  next_generation, is_unrecovered, is_failed, is_awaiting, is_startable,
  sync_transport_recovery_status, pending, waiting_for_device, rebuilding_mappings,
  awaiting_control, recovered, failed, host_resume, usb_reconnect,
}
use quest_vd_wired.Recovery.Status.{update_status}

unfoldable pub notify_transport_recovery :
    AdbHealthMonitor → TransportRecoveryTrigger → AdbHealthMonitor × ℕ
unfolding sync_transport_recovery_status
notify_transport_recovery m trigger =
    let next = next_generation m.recovery.generation in
    let m' : AdbHealthMonitor = record m {
      auto_rearm_generation = 0;
      recovery = record { generation = next; attempt = 0; state = pending; trigger = some trigger };
    } in
    (sync_transport_recovery_status m' (some "transport_recovery_pending"), next)

unfoldable pub notify_host_resume : AdbHealthMonitor → AdbHealthMonitor × ℕ
unfolding notify_transport_recovery
notify_host_resume m =
    notify_transport_recovery (record m { usb_reconnect_pending = false }) host_resume

unfoldable pub rearm_failed_transport :
    AdbHealthMonitor → ℕ → TransportRecoveryTrigger → AdbHealthMonitor × Option ℕ
unfolding sync_transport_recovery_status
rearm_failed_transport m generation trigger =
    if m.stopping || m.auto_rearm_generation == generation
    then (m, none)
    else if not (m.recovery.generation == generation) || not (is_failed m.recovery.state)
    then (m, none)
    else let next = next_generation m.recovery.generation in
      let m' : AdbHealthMonitor = record m {
        auto_rearm_generation = next;
        recovery = record {
          generation = next;
          attempt = 0;
          state = pending;
          trigger = some trigger;
        };
      } in
      (sync_transport_recovery_status m' (some "transport_recovery_rearmed"), some next)

-- `let trigger = recovery.trigger?` leaves before anything is changed.
unfoldable pub rearm_failed_transport_from_authenticated_control :
    AdbHealthMonitor → AdbHealthMonitor × Option (ℕ × ℕ × TransportRecoveryTrigger)
unfolding update_status
rearm_failed_transport_from_authenticated_control m =
    if m.stopping || not (is_failed m.recovery.state) then (m, none) else elim m.recovery.trigger [
      | none ↦ (m, none)
      | some trigger ↦
          let next = next_generation m.recovery.generation in
          let r : TransportRecoverySnapshot = record {
            generation = next;
            attempt = 1;
            state = awaiting_control;
            trigger = m.recovery.trigger;
          } in
          let m' : AdbHealthMonitor = record m { recovery = r; auto_rearm_generation = 0 } in
          (
            (update_status m' true true true (some "transport_recovery_authenticated_rearm")).0,
            some (m.recovery.generation, next, trigger),
          )
    ]

abbrev pub member : ℕ → List ℕ → Bool
member g [] = false
member g (x ∷ xs) = x == g || member g xs

abbrev pub delete : ℕ → List ℕ → List ℕ
delete g [] = []
delete g (x ∷ xs) = if x == g then delete g xs else x ∷ delete g xs

-- With whether a task was spawned that rearms `generation` after the delay.
unfoldable pub schedule_transport_recovery_rearm_after :
    AdbHealthMonitor → ℕ → AdbHealthMonitor × Bool
schedule_transport_recovery_rearm_after m generation =
    if m.auto_rearm_generation == generation || member generation m.rearm_scheduled
    then (m, false)
    else (record m { rearm_scheduled = generation ∷ m.rearm_scheduled }, true)

-- What that task does when the delay is over.
unfoldable pub fire_rearm :
    AdbHealthMonitor → ℕ → TransportRecoveryTrigger → AdbHealthMonitor × Option ℕ
unfolding rearm_failed_transport
fire_rearm m generation trigger =
    rearm_failed_transport (record m { rearm_scheduled = delete generation m.rearm_scheduled })
      generation trigger

unfoldable pub transport_requires_recovery : AdbHealthMonitor → Bool
transport_requires_recovery m = is_unrecovered m.recovery.state

unfoldable pub wait_for_recovery_device : AdbHealthMonitor → AdbHealthMonitor
unfolding sync_transport_recovery_status
wait_for_recovery_device m =
    let r = m.recovery in
    let m' : AdbHealthMonitor = record m {
      recovery = record r { attempt = 0; state = waiting_for_device };
    } in
    sync_transport_recovery_status m' (some "transport_recovery_waiting_for_device")

-- `recovery.trigger?` stands behind the two assignments: without a trigger they stay, unsynchronised.
unfoldable pub begin_transport_recovery_attempt :
    AdbHealthMonitor → AdbHealthMonitor × Option (ℕ × ℕ × TransportRecoveryTrigger)
unfolding sync_transport_recovery_status
begin_transport_recovery_attempt m =
    if not (is_startable m.recovery.state) || leb max_attempts m.recovery.attempt
    then (m, none)
    else let r = m.recovery in
      let m' : AdbHealthMonitor = record m {
        recovery = record r { attempt = r.attempt + 1; state = rebuilding_mappings };
      } in
      elim r.trigger [
        | none ↦ (m', none)
        | some trigger ↦ (
          sync_transport_recovery_status m' (some "transport_recovery_rebuilding"),
          some (r.generation, r.attempt + 1, trigger),
        )
      ]

unfoldable pub finish_transport_recovery_attempt :
    AdbHealthMonitor → ℕ → Bool → AdbHealthMonitor × Bool
unfolding sync_transport_recovery_status
finish_transport_recovery_attempt m generation succeeded =
    if not (m.recovery.generation == generation)
    then (m, false)
    else let r = m.recovery in
      let retry = not succeeded && ltb r.attempt max_attempts in
      let state = if succeeded then awaiting_control else (if retry then pending else failed) in
      let m' : AdbHealthMonitor = record m { recovery = record r { state = state } } in
      let message =
        if succeeded
        then none
        else (if retry
            then some "transport_recovery_retry"
            else some "transport_recovery_failed") in
      (sync_transport_recovery_status m' message, retry)

unfoldable pub complete_authenticated_transport_recovery :
    AdbHealthMonitor → AdbHealthMonitor × Bool
unfolding sync_transport_recovery_status
complete_authenticated_transport_recovery m =
    if not (is_awaiting m.recovery.state) then (m, false) else elim m.recovery.trigger [
      | none ↦ (m, false)
      | some trigger ↦
          let r = m.recovery in
          let m' : AdbHealthMonitor = record m { recovery = record r { state = recovered } } in
          (sync_transport_recovery_status m' none, true)
    ]

unfoldable pub expire_transport_recovery_control :
    AdbHealthMonitor → ℕ → ℕ → AdbHealthMonitor × Option Bool
unfolding sync_transport_recovery_status
expire_transport_recovery_control m generation attempt =
    if not (m.recovery.generation == generation)
      || (not (m.recovery.attempt == attempt) || not (is_awaiting m.recovery.state))
    then (m, none)
    else let r = m.recovery in
      let retry = ltb r.attempt max_attempts in
      let m' : AdbHealthMonitor = record m {
        recovery = record r { state = if retry then pending else failed };
      } in
      let message =
        if retry
        then some "transport_recovery_control_retry"
        else some "transport_recovery_control_failed" in
      (sync_transport_recovery_status m' message, some retry)

abbrev pub is_host_resume : Option TransportRecoveryTrigger → Bool
is_host_resume (some host_resume) = true
is_host_resume _ = false

unfoldable pub note_usb_disconnected : AdbHealthMonitor → AdbHealthMonitor
unfolding transport_requires_recovery
note_usb_disconnected m =
    if not (is_host_resume m.recovery.trigger) || not (transport_requires_recovery m)
    then record m { usb_reconnect_pending = true }
    else m

unfoldable pub notify_usb_reconnected_if_needed : AdbHealthMonitor → AdbHealthMonitor × Bool
unfolding notify_transport_recovery
notify_usb_reconnected_if_needed m = if not m.usb_reconnect_pending then (m, false) else (
  (notify_transport_recovery (record m { usb_reconnect_pending = false }) usb_reconnect).0,
  true,
)

unfoldable pub begin_suppress_repairs : AdbHealthMonitor → AdbHealthMonitor
begin_suppress_repairs m =
    let shown = m.status in
    record m { stopping = true; status = record shown { active = false; repair_suppressed = true } }

unfoldable pub notify_authenticated_connection : AdbHealthMonitor → AdbHealthMonitor
notify_authenticated_connection m = record m { authenticated_reconcile = true }

-- `fetch_add(1)` of an `AtomicU64`.
abbrev pub count_one : ℕ → ℕ
count_one n = (n + 1) % 2 ^ 64

-- A duration in nanoseconds, recorded in microseconds.
unfoldable pub record_mapping_probe : AdbHealthMonitor → ℕ → AdbHealthMonitor
record_mapping_probe m duration =
    let duration_us = min (duration / 1000) (2 ^ 64 - 1) in
    record m {
      mapping_probe_count = count_one m.mapping_probe_count;
      mapping_probe_last_us = duration_us;
      mapping_probe_max_us = max m.mapping_probe_max_us duration_us;
    }
