-- ===== src/Recovery/Run.antt =====
-- What happens to a monitor: triggers, timers, attempts and the control lane, in any order.
use quest_vd_wired.Common.{
  ℕ, Bool, true, false, ◌&&◌, not, if◌then◌else◌, Option, none, some, List, [], ◌∷◌, String,
}
use quest_vd_wired.Recovery.State.{AdbHealthMonitor, Status, default, TransportRecoveryTrigger}
use quest_vd_wired.Recovery.Monitor.{
  notify_host_resume, rearm_failed_transport_from_authenticated_control,
  schedule_transport_recovery_rearm_after, fire_rearm, transport_requires_recovery,
  wait_for_recovery_device, begin_transport_recovery_attempt, finish_transport_recovery_attempt,
  complete_authenticated_transport_recovery, expire_transport_recovery_control,
  note_usb_disconnected, notify_usb_reconnected_if_needed, begin_suppress_repairs,
}
use quest_vd_wired.Recovery.Status.{update_status}

-- The beginning of `recover_transport` where no device is there, up to its first `return true`.
unfoldable pub recover_without_device : AdbHealthMonitor → AdbHealthMonitor
unfolding transport_requires_recovery wait_for_recovery_device update_status
recover_without_device m =
    if transport_requires_recovery m && not m.stopping
    then (update_status (wait_for_recovery_device m) true false false
        (some "transport_recovery_waiting_for_device")).0
    else m

-- The monitor's task runs one attempt at a time: from a begun one, of which it keeps the generation,
-- to its report nothing else of that task happens, while triggers, timers and the control lane go on.
pub record System : Type 0 where
  pub monitor : AdbHealthMonitor
  pub attempt : Option ℕ

pub data Call : Type 0 where
  resumes : Call
  schedules : ℕ → Call
  fires : ℕ → TransportRecoveryTrigger → Call
  rearms_authenticated : Call
  misses_device : Call
  begins : Call
  finishes : Bool → Call
  completes : Call
  expires : ℕ → ℕ → Call
  disconnects : Call
  reconnects : Call
  suppresses : Call
  -- `update_status` of the monitor's task, with any of its arguments.
  updates : Bool → Bool → Bool → Option String → Call
  -- The recovery and the status have a lock each. A task that has read the recovery writes the status
  -- later, when the recovery may be another: any status.
  shows : Status → Call

abbrev pub attempt_of : Option (ℕ × ℕ × TransportRecoveryTrigger) → Option ℕ
attempt_of none = none
attempt_of (some (generation, attempt, trigger)) = some generation

unfoldable pub task_misses_device : System → System
unfolding recover_without_device
task_misses_device s = elim s.attempt [
  | none ↦ record s { monitor = recover_without_device s.monitor }
  | some g ↦ s
]

unfoldable pub task_begins : System → System
unfolding begin_transport_recovery_attempt
task_begins s = elim s.attempt [
  | none ↦
      let (m, begun) = begin_transport_recovery_attempt s.monitor in
      record { monitor = m; attempt = attempt_of begun }
  | some g ↦ s
]

unfoldable pub task_finishes : System → Bool → System
unfolding finish_transport_recovery_attempt
task_finishes s succeeded = elim s.attempt [
  | none ↦ s
  | some g ↦ record {
    monitor = (finish_transport_recovery_attempt s.monitor g succeeded).0;
    attempt = none;
  }
]

unfoldable pub step : System → Call → System
unfolding notify_host_resume schedule_transport_recovery_rearm_after fire_rearm
    rearm_failed_transport_from_authenticated_control task_misses_device task_begins task_finishes
    complete_authenticated_transport_recovery expire_transport_recovery_control
    note_usb_disconnected notify_usb_reconnected_if_needed begin_suppress_repairs update_status
step s resumes = record s { monitor = (notify_host_resume s.monitor).0 }
step s (schedules g) = record s {
  monitor = (schedule_transport_recovery_rearm_after s.monitor g).0;
}
step s (fires g t) = record s { monitor = (fire_rearm s.monitor g t).0 }
step s rearms_authenticated = record s {
  monitor = (rearm_failed_transport_from_authenticated_control s.monitor).0;
}
step s misses_device = task_misses_device s
step s begins = task_begins s
step s (finishes succeeded) = task_finishes s succeeded
step s completes = record s { monitor = (complete_authenticated_transport_recovery s.monitor).0 }
step s (expires g attempt) = record s {
  monitor = (expire_transport_recovery_control s.monitor g attempt).0;
}
step s disconnects = record s { monitor = note_usb_disconnected s.monitor }
step s reconnects = record s { monitor = (notify_usb_reconnected_if_needed s.monitor).0 }
step s suppresses = record s { monitor = begin_suppress_repairs s.monitor }
step s (updates active available healthy error) = record s {
  monitor = (update_status s.monitor active available healthy error).0;
}
step s (shows status) = record s { monitor = record s.monitor { status = status } }

unfoldable pub start : System
unfolding default
start = record { monitor = default; attempt = none }

unfoldable pub run : System → List Call → System
run s [] = s
run s (c ∷ cs) = run (step s c) cs
