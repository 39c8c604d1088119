-- ===== src/Monitor/Supervise.antt =====
-- `AdbHealthMonitor::supervise_android` and `restart_android`: the product's process is restarted if
-- an awake headset stays silent.
use quest_vd_wired.Common.{Bool, true, false, ◌||◌, not, if◌then◌else◌, Option, none, some}
use quest_vd_wired.HostState.Machine.{HostState}
use quest_vd_wired.Protocol.Types.{SessionId}
use quest_vd_wired.Relay.Controller.{
  goes_inactive_recovering, loses_carrier_recovering, regains_carrier,
}
use quest_vd_wired.Liveness.Policy.{probe_due, restart_due}
use quest_vd_wired.Recovery.State.{
  TransportRecoveryState, pending, waiting_for_device, rebuilding_mappings, awaiting_control,
}
use quest_vd_wired.Adb.Actions.{Result, ok, err}
use quest_vd_wired.Adb.Types.{AdbError, AdbController}
use quest_vd_wired.Adb.Commands.{
  Does, headset_awake_quick, force_stop_android, send_start_intent, verify_vpn_closed,
}
use quest_vd_wired.Adb.Status.{android_status_quick}
use quest_vd_wired.Adb.Transactions.{reinstall_mappings}
use quest_vd_wired.Monitor.Changes.{
  updates, lives, is_connected, is_ineligible, is_silent, is_observed, is_restarted,
}
use quest_vd_wired.Monitor.Shared as Shared
use quest_vd_wired.Monitor.Host.{
  is_degraded, Host, lifecycle, is_stopping, changes, calls, awaits, now, adb,
}
use quest_vd_wired.Monitor.Rebuild.{reset_control}

-- The states in which a recovery is under way.
abbrev pub is_recovering : TransportRecoveryState → Bool
is_recovering pending = true
is_recovering waiting_for_device = true
is_recovering rebuilding_mappings = true
is_recovering awaiting_control = true
is_recovering _ = false

-- Whether the answer is `Ok(Ok(Some(true)))`.
abbrev pub says_awake : Result AdbError (Option Bool) → Bool
says_awake (ok (some awake)) = awake
says_awake (ok none) = false
says_awake (err e) = false

-- How the steps of a restart end: all done, stopped by the stop flag, or at a step that failed.
pub data Restart : Type 0 where
  requested halted failed_step : Restart

module _ (c : AdbController) (session_id : SessionId) (all_traffic : Bool) where
  abbrev pub verdict : {E : Type 0} → Result E (Unit {0}) × Host c → Restart × Host c
  verdict (ok _, h) = (requested, h)
  verdict (err e, h) = (failed_step, h)

  unfoldable pub android_restart_step :
      {E : Type 0} → Does c E (Unit {0}) → Host c → Restart × Host c
  android_restart_step step h = if is_stopping c h then (halted, h) else verdict (adb c step h)

  -- `?`
  abbrev pub and_then : Restart × Host c → (Host c → Restart × Host c) → Restart × Host c
  and_then (requested, h) next = next h
  and_then (halted, h) next = (halted, h)
  and_then (failed_step, h) next = (failed_step, h)

  -- Between the mappings and the start: only a new control connection opens the relay.
  unfoldable pub reopen : Host c → Host c
  reopen h =
      let h₁ = reset_control c (calls c h goes_inactive_recovering) in
      calls c (changes c h₁ (updates true true true none)) regains_carrier

  -- The four steps, from the last on.
  unfoldable pub start_again : Host c → Restart × Host c
  start_again h = android_restart_step (send_start_intent c session_id all_traffic) (reopen h)

  unfoldable pub reinstall_and_start : Host c → Restart × Host c
  reinstall_and_start h = and_then (android_restart_step (reinstall_mappings c) h) start_again

  unfoldable pub verify_and_start : Host c → Restart × Host c
  verify_and_start h = and_then (android_restart_step (verify_vpn_closed c) h) reinstall_and_start

  unfoldable pub restart_steps : Host c → Restart × Host c
  restart_steps h = and_then (android_restart_step (force_stop_android c) h) verify_and_start

  unfoldable pub conclude_restart : Restart × Host c → Host c
  conclude_restart (requested, h) = h
  conclude_restart (halted, h) = h
  conclude_restart (failed_step, h) =
      changes c h (updates true true false (some "android_restart_failed"))

  -- Behind the wait for the operation lock. The status is read for the diagnostics alone.
  unfoldable pub restart : Host c → Host c
  restart h =
      if is_stopping c h
      then h
      else (let (t, h₁) = now c h in
          let (status, h₂) =
            adb c (android_status_quick c) (changes c h₁ (lives (is_restarted t))) in
          conclude_restart (restart_steps (calls c h₂ loses_carrier_recovering)))

  unfoldable pub restart_android : Host c → Host c
  restart_android h = restart (awaits c h)

  unfoldable pub judge_awake : Bool → Host c → Host c
  judge_awake awake h =
      let (t, h₁) = now c h in
      let h₂ = changes c h₁ (lives (is_observed awake t)) in
      if restart_due h₂.shared.monitor.android_liveness t then restart_android h₂ else h₂

  unfoldable pub probe_awake : Host c → Host c
  probe_awake h = let (r, h₁) = adb c (headset_awake_quick c) h in judge_awake (says_awake r) h₁

  unfoldable pub watch_silence : Host c → Host c
  watch_silence h =
      let (t, h₁) = now c h in
      let (t', h₂) = now c (changes c h₁ (lives (is_silent t))) in
      if not (probe_due h₂.shared.monitor.android_liveness t') then h₂ else probe_awake h₂

  -- Behind the wait for the control server's snapshot.
  unfoldable pub supervise : HostState → Bool → Host c → Host c
  supervise state device_available h =
      if Shared.is_connected state
      then changes c h (lives is_connected)
      else if not (is_degraded state)
          || (not device_available || is_recovering h.shared.monitor.recovery.state)
      then changes c h (lives is_ineligible)
      else watch_silence h

  unfoldable pub supervise_android : Host c → Bool → Host c
  supervise_android h device_available =
      if is_stopping c h
      then h
      else (let h₁ = awaits c h in supervise (lifecycle c h₁) device_available h₁)
