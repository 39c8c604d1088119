-- ===== src/Lifecycle/Stop.antt =====
-- `stop` and `repair` of main.rs: the daemon is asked to stop, and the headset is cleaned up only where
-- no repair of the mappings can race with that.
use quest_vd_wired.Common.{ℕ, Bool, true, false, ◌&&◌, not, if◌then◌else◌, Option, none, some}
use quest_vd_wired.HostState.Machine.{HostState, stopped, degraded, stopping, error}
use quest_vd_wired.Adb.Actions.{Result, ok, err}
use quest_vd_wired.Adb.Types.{AdbController, TransactionError}
use quest_vd_wired.Adb.Transactions as Adb
use quest_vd_wired.Adb.Transactions.{finish_control_stop, repair_mappings}
use quest_vd_wired.Lifecycle.Platform.{
  Snapshot, DaemonReply, stop_command, shutdown_command, Platform,
}

-- How `stop` ends.
pub data Stop : Type 0 where
  verified : Stop
  operation_active : Stop
  not_verified : TransactionError → Stop
  not_quiesced quiesced refused : Stop
  daemon_remains : Stop
  not_written : Stop

pub data Repaired : Type 0 where
  repaired operation_active daemon_active : Repaired
  not_repaired : TransactionError → Repaired

unfoldable pub admin_stop_acknowledges_suppression : DaemonReply → Bool
admin_stop_acknowledges_suppression r = r.accepted && r.repairs_suppressed

abbrev pub stopped_snapshot : Snapshot
stopped_snapshot = record { state = stopped; session_id = none; reason = none }

abbrev pub unverified_snapshot : Snapshot
unverified_snapshot = record {
  state = error;
  session_id = none;
  reason = some "explicit stop could not be verified";
}

-- What a lifecycle is shown as where no runtime is there.
unfoldable pub reflect_state : HostState → Snapshot → Snapshot
reflect_state stopped s = s
reflect_state stopping s = record s {
  state = error;
  reason = some "host runtime exited during Stop; VPN state is unverified";
}
reflect_state error s = s
reflect_state _ s = record s {
  state = degraded;
  reason = some "host runtime is not running; Quest VPN state is retained";
}

unfoldable pub reflect_missing_runtime : Snapshot → Snapshot
unfolding reflect_state
reflect_missing_runtime s = reflect_state s.state s

module _ (c : AdbController) (p : Platform c.executor.World) where
  open c use {executor}
  open p use {
    acquire_operation, read_daemon_pid, runtime_may_be_active, admin_command, terminate_daemon,
    wait_for_daemon_exit, remove_daemon_pid, write_status, drain_mapping_command,
  }

  abbrev pub W : Type 0
  W = executor.World

  -- A stop that Android acknowledged is finished, and else the whole transaction is run.
  abbrev pub or_stop :
      Result TransactionError (Unit {0}) × W → Result TransactionError (Unit {0}) × W
  or_stop (ok _, w) = (ok tt, w)
  or_stop (err e, w) = Adb.stop c w

  -- The daemon's end, when the session has ended.
  unfoldable pub after_exit : Bool × W → Bool × W
  after_exit (true, w) = (true, w)
  after_exit (false, w) = terminate_daemon w

  unfoldable pub is_accepted : Option DaemonReply → Bool
  is_accepted none = false
  is_accepted (some r) = r.accepted

  unfoldable pub shut_down : Option DaemonReply × W → Bool × W
  shut_down (reply, w) =
      if is_accepted reply then after_exit (wait_for_daemon_exit w) else terminate_daemon w

  abbrev pub is_ok : Result TransactionError (Unit {0}) → Bool
  is_ok (ok _) = true
  is_ok (err e) = false

  unfoldable pub end_daemon : Result TransactionError (Unit {0}) → Option ℕ × W → Bool × W
  end_daemon r (none, w) = (true, w)
  end_daemon r (some pid, w) =
      if is_ok r then shut_down (admin_command shutdown_command w) else terminate_daemon w

  abbrev pub report : Result TransactionError (Unit {0}) → W → Stop × W
  report (ok _) w =
      let (written, w₁) = write_status stopped_snapshot w in
      (if written then verified else not_written, w₁)
  report (err e) w =
      let (written, w₁) = write_status unverified_snapshot w in
      (if written then not_verified e else not_written, w₁)

  abbrev pub unless_remains : Result TransactionError (Unit {0}) → Bool × W → Stop × W
  unless_remains r (ended, w) =
      if ended then report r (remove_daemon_pid w) else (daemon_remains, w)

  -- From the result of the transaction on.
  unfoldable pub conclude_stop : Result TransactionError (Unit {0}) × W → Stop × W
  conclude_stop (r, w) = unless_remains r (end_daemon r (read_daemon_pid w))

  -- The verified daemon is killed, and nothing is torn down.
  unfoldable pub quiesce : W → Stop × W
  quiesce w =
      let (ended, w₁) = terminate_daemon w in
      if not ended
      then (not_quiesced, w₁)
      else (quiesced, drain_mapping_command (remove_daemon_pid w₁))

  unfoldable pub unless_active : Bool × W → Stop × W
  unless_active (active, w) = if active then (refused, w) else conclude_stop (Adb.stop c w)

  -- No answer proves that the repairs are suppressed.
  unfoldable pub stop_unproven : Option ℕ × W → Stop × W
  stop_unproven (some pid, w) = quiesce w
  stop_unproven (none, w) = unless_active (runtime_may_be_active w)

  unfoldable pub after_answer : Option DaemonReply × W → Stop × W
  after_answer (none, w) = stop_unproven (read_daemon_pid w)
  after_answer (some r, w) =
      if admin_stop_acknowledges_suppression r
      then conclude_stop (or_stop (finish_control_stop c w))
      else if r.repairs_suppressed
      then conclude_stop (Adb.stop c w)
      else stop_unproven (read_daemon_pid w)

  unfoldable pub stop : W → Stop × W
  stop w =
      let (acquired, w₁) = acquire_operation w in
      if not acquired then (operation_active, w₁) else after_answer (admin_command stop_command w₁)

  abbrev pub repair_result : Result TransactionError (Unit {0}) × W → Repaired × W
  repair_result (ok _, w) = (repaired, w)
  repair_result (err e, w) = (not_repaired e, w)

  unfoldable pub repair_unless_active : Bool × W → Repaired × W
  repair_unless_active (active, w) =
      if active then (daemon_active, w) else repair_result (repair_mappings c w)

  unfoldable pub repair_unless_identified : Option ℕ × W → Repaired × W
  repair_unless_identified (some pid, w) = (daemon_active, w)
  repair_unless_identified (none, w) = repair_unless_active (runtime_may_be_active w)

  unfoldable pub repair : W → Repaired × W
  repair w =
      let (acquired, w₁) = acquire_operation w in
      if not acquired then (operation_active, w₁) else repair_unless_identified (read_daemon_pid w₁)
