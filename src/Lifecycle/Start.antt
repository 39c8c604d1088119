-- ===== src/Lifecycle/Start.antt =====
-- `start` of main.rs: the daemon is spawned, the session is started on the headset, and both are taken
-- back if the headset does not answer.
use quest_vd_wired.Common.{
  ℕ, Bool, true, false, not, if◌then◌else◌, Option, none, some, List, [], ◌∷◌, String, bytes_eq,
}
use quest_vd_wired.Protocol.Types.{SessionId}
use quest_vd_wired.Protocol.Session.{display}
use quest_vd_wired.HostState.Machine.{HostState, connected, error}
use quest_vd_wired.Adb.Actions.{Result, ok, err}
use quest_vd_wired.Adb.Types.{AdbController, TransactionError, StartReceipt}
use quest_vd_wired.Adb.Transactions as Adb
use quest_vd_wired.Adb.Transactions.{install_matching_apk, stop_unresponsive}
use quest_vd_wired.Lifecycle.Platform.{Poll, ReadyPoll, Snapshot, Platform}

-- How `start` ends. The reason of a failed wait is left out.
pub data Started : Type 0 where
  linked : SessionId → (daemon_pid : ℕ) → Started
  operation_active runtime_active not_materialized not_spawned not_ready : Started
  already_running : ℕ → Started
  not_installed not_started : TransactionError → Started
  not_quiesced rolled_back : Started
  not_rolled_back : TransactionError → Started

abbrev pub is_session : SessionId → Option (List ℕ) → Bool
is_session session none = false
is_session session (some text) = bytes_eq text (display session)

-- What a poll with the session's state decides: connected, failed, or go on.
abbrev pub verdict_of : HostState → Option Bool
verdict_of connected = some true
verdict_of error = some false
verdict_of _ = none

-- `wait_for_connected`; the end of the polls is the deadline.
unfoldable pub wait_for_connected : SessionId → List Poll → Bool
wait_for_connected session [] = false
wait_for_connected session (p ∷ rest) =
    let later = wait_for_connected session rest in
    let unless_exited = if p.has_exited then false else later in
    if is_session session p.session_id
    then elim (verdict_of p.state) [ some verdict ↦ verdict | none ↦ unless_exited ]
    else unless_exited

-- `wait_for_runtime_ready`
unfoldable pub wait_for_runtime_ready : List ReadyPoll → Bool
wait_for_runtime_ready [] = false
wait_for_runtime_ready (p ∷ rest) =
    let later = wait_for_runtime_ready rest in
    if not p.is_running then false else if p.is_ready then true else later

abbrev pub failed_snapshot : SessionId → String → Snapshot
failed_snapshot session reason = record {
  state = error;
  session_id = some (display session);
  reason = some reason;
}

module _ (c : AdbController) (p : Platform c.executor.World) where
  open c use {executor}
  open p use {
    acquire_operation, read_daemon_pid, process_is_running, runtime_may_be_active, materialize_apk,
    random_session, spawn_daemon, ready_polls, connected_polls, terminate_spawned_daemon,
    write_status,
  }

  abbrev pub W : Type 0
  W = executor.World

  -- The rollback's result decides the reason and the error.
  unfoldable pub conclude_rollback :
      SessionId → Result TransactionError (Unit {0}) × W → Started × W
  conclude_rollback session (ok _, w) = (
    rolled_back,
    (write_status
        (failed_snapshot session "Android did not acknowledge GNR4 STARTED; rollback completed")
        w).1,
  )
  conclude_rollback session (err e, w) = (
    not_rolled_back e,
    (write_status
        (failed_snapshot session
          "Android did not acknowledge GNR4 STARTED; rollback could not verify VPN closure")
        w).1,
  )

  unfoldable pub roll_back : SessionId → W → Started × W
  roll_back session w =
      let (quiet, w₁) = terminate_spawned_daemon w in
      if not quiet then (not_quiesced, w₁) else conclude_rollback session (stop_unresponsive c w₁)

  -- Android has the intent: it has to answer.
  unfoldable pub await_connected : SessionId → ℕ → W → Started × W
  await_connected session pid w =
      let (polls, w₁) = connected_polls w in
      if wait_for_connected session polls then (linked session pid, w₁) else roll_back session w₁

  unfoldable pub after_start :
      SessionId → ℕ → Result TransactionError StartReceipt × W → Started × W
  after_start session pid (ok receipt, w) = await_connected session pid w
  after_start session pid (err e, w) =
      let (killed, w₁) = terminate_spawned_daemon w in
      (
        not_started e,
        (write_status (failed_snapshot session "Android start transaction failed") w₁).1,
      )

  unfoldable pub await_ready : SessionId → Bool → ℕ → W → Started × W
  await_ready session all_traffic pid w =
      let (polls, w₁) = ready_polls pid w in
      if wait_for_runtime_ready polls
      then after_start session pid (Adb.start c session all_traffic w₁)
      else (not_ready, (terminate_spawned_daemon w₁).1)

  abbrev pub unless_unspawned : SessionId → Bool → Option ℕ × W → Started × W
  unless_unspawned session all_traffic (none, w) = (not_spawned, w)
  unless_unspawned session all_traffic (some pid, w) = await_ready session all_traffic pid w

  abbrev pub after_install : Bool → Result TransactionError (Unit {0}) × W → Started × W
  after_install all_traffic (err e, w) = (not_installed e, w)
  after_install all_traffic (ok _, w) =
      let (session, w₁) = random_session w in
      unless_unspawned session all_traffic (spawn_daemon session all_traffic w₁)

  unfoldable pub install_and_start : Bool → W → Started × W
  install_and_start all_traffic w =
      let (written, w₁) = materialize_apk w in
      if not written
      then (not_materialized, w₁)
      else after_install all_traffic (install_matching_apk c p.apk_path w₁)

  unfoldable pub unless_active : Bool → W → Started × W
  unless_active all_traffic w =
      let (active, w₁) = runtime_may_be_active w in
      if active then (runtime_active, w₁) else install_and_start all_traffic w₁

  abbrev pub unless_running : Bool → ℕ → Bool × W → Started × W
  unless_running all_traffic pid (running, w) =
      if running then (already_running pid, w) else unless_active all_traffic w

  abbrev pub unless_identified : Bool → Option ℕ × W → Started × W
  unless_identified all_traffic (none, w) = unless_active all_traffic w
  unless_identified all_traffic (some pid, w) =
      unless_running all_traffic pid (process_is_running pid w)

  unfoldable pub start : Bool → W → Started × W
  start all_traffic w =
      let (acquired, w₁) = acquire_operation w in
      if not acquired
      then (operation_active, w₁)
      else unless_identified all_traffic (read_daemon_pid w₁)
