-- ===== src/Monitor/Keeps/Restarts.antt =====
-- `supervise_android`.
use quest_vd_wired.Common.{Bool, ◌||◌, not}
use quest_vd_wired.HostState.Machine.{HostState}
use quest_vd_wired.Protocol.Types.{SessionId}
use quest_vd_wired.Adb.Actions.{Result, ok, err}
use quest_vd_wired.Adb.Types.{AdbController}
use quest_vd_wired.Adb.Commands.{
  Does, headset_awake_quick, force_stop_android, send_start_intent, verify_vpn_closed,
}
use quest_vd_wired.Adb.Status.{android_status_quick}
use quest_vd_wired.Adb.Transactions.{reinstall_mappings}
use quest_vd_wired.Monitor.Changes.{lives, is_ineligible, is_connected as on}
use quest_vd_wired.Monitor.Shared.{Action, Shared, is_connected, monitor_change}
use quest_vd_wired.Monitor.Host.{Host, is_stopping, is_degraded}
use quest_vd_wired.Monitor.Supervise.{
  is_recovering, Restart, requested, halted, failed_step, verdict, android_restart_step, and_then,
  reopen, start_again, reinstall_and_start, verify_and_start, restart_steps, conclude_restart,
  restart, restart_android, judge_awake, probe_awake, watch_silence, supervise, supervise_android,
}
use quest_vd_wired.Monitor.Keeps.Waits.{
  Kept, Holds, does-keeps, if-keeps, pair-if-keeps, awaits-keeps, now-keeps, adb-keeps,
}
use quest_vd_wired.Monitor.Keeps.Rebuilds.{reset_control-keeps}

module _ (c : AdbController) {P : Shared → Type 0} {Allowed : Action → Type 0} (k : Kept P Allowed)
    (i : SessionId) (all : Bool) where
  verdict-keeps :
      {E : Type 0} (q : Result E (Unit {0}) × Host c)
      → Holds c k q.1
      → Holds c k (verdict c i all q).1
  verdict-keeps (ok _, h) p = p
  verdict-keeps (err e, h) p = p

  step-keeps :
      {E : Type 0} (action : Does c E (Unit {0})) (h : Host c)
      → Holds c k h
      → Holds c k (android_restart_step c i all action h).1
  unfolding android_restart_step
  step-keeps action h p =
      pair-if-keeps c k (is_stopping c h) _ _ p (verdict-keeps _ (adb-keeps c k action h p))

  and_then-keeps :
      (q : Restart × Host c) (next : Host c → Restart × Host c)
      → ((h : Host c) → Holds c k h → Holds c k (next h).1)
      → Holds c k q.1
      → Holds c k (and_then c i all q next).1
  and_then-keeps (requested, h) next keep p = keep h p
  and_then-keeps (halted, h) next keep p = p
  and_then-keeps (failed_step, h) next keep p = p

  reopen-keeps : (h : Host c) → Holds c k h → Holds c k (reopen c i all h)
  unfolding reopen
  reopen-keeps h p =
      let q = reset_control-keeps c k _ (does-keeps c k h _ _ p) in
      does-keeps c k _ _ _ (does-keeps c k _ _ _ q)

  start_again-keeps : (h : Host c) → Holds c k h → Holds c k (start_again c i all h).1
  unfolding start_again
  start_again-keeps h p = step-keeps (send_start_intent c i all) _ (reopen-keeps h p)

  reinstall-keeps : (h : Host c) → Holds c k h → Holds c k (reinstall_and_start c i all h).1
  unfolding reinstall_and_start
  reinstall-keeps h p =
      and_then-keeps (android_restart_step c i all (reinstall_mappings c) h) (start_again c i all)
        start_again-keeps (step-keeps (reinstall_mappings c) h p)

  verify-keeps : (h : Host c) → Holds c k h → Holds c k (verify_and_start c i all h).1
  unfolding verify_and_start
  verify-keeps h p =
      and_then-keeps (android_restart_step c i all (verify_vpn_closed c) h)
        (reinstall_and_start c i all) reinstall-keeps (step-keeps (verify_vpn_closed c) h p)

  restart_steps-keeps : (h : Host c) → Holds c k h → Holds c k (restart_steps c i all h).1
  unfolding restart_steps
  restart_steps-keeps h p =
      and_then-keeps (android_restart_step c i all (force_stop_android c) h)
        (verify_and_start c i all) verify-keeps (step-keeps (force_stop_android c) h p)

  conclude_restart-keeps :
      (q : Restart × Host c) → Holds c k q.1 → Holds c k (conclude_restart c i all q)
  unfolding conclude_restart
  conclude_restart-keeps (requested, h) p = p
  conclude_restart-keeps (halted, h) p = p
  conclude_restart-keeps (failed_step, h) p = does-keeps c k h _ _ p

  restart-keeps : (h : Host c) → Holds c k h → Holds c k (restart c i all h)
  unfolding restart
  restart-keeps h p =
      let q = adb-keeps c k (android_status_quick c) _ (does-keeps c k _ _ _ (now-keeps c k h p)) in
      if-keeps c k (is_stopping c h) _ _ p
        (conclude_restart-keeps _ (restart_steps-keeps _ (does-keeps c k _ _ _ q)))

  judge_awake-keeps :
      (awake : Bool) (h : Host c) → Holds c k h → Holds c k (judge_awake c i all awake h)
  unfolding judge_awake restart_android
  judge_awake-keeps awake h p =
      let q = does-keeps c k _ _ _ (now-keeps c k h p) in
      if-keeps c k _ _ _ (restart-keeps _ (awaits-keeps c k _ q)) q

  probe_awake-keeps : (h : Host c) → Holds c k h → Holds c k (probe_awake c i all h)
  unfolding probe_awake
  probe_awake-keeps h p = judge_awake-keeps _ _ (adb-keeps c k (headset_awake_quick c) h p)

  watch_silence-keeps : (h : Host c) → Holds c k h → Holds c k (watch_silence c i all h)
  unfolding watch_silence
  watch_silence-keeps h p =
      let q = now-keeps c k _ (does-keeps c k _ _ _ (now-keeps c k h p)) in
      if-keeps c k _ _ _ q (probe_awake-keeps _ q)

  supervise-keeps :
      (x : HostState) (device : Bool) (h : Host c)
      → Holds c k h
      → Holds c k (supervise c i all x device h)
  unfolding supervise
  supervise-keeps x device h p =
      if-keeps c k (is_connected x) _ _ (does-keeps c k h (monitor_change (lives on)) _ p) (
        if-keeps c k
          (not (is_degraded x) || (not device || is_recovering h.shared.monitor.recovery.state)) _ _
          (does-keeps c k h (monitor_change (lives is_ineligible)) _ p) (watch_silence-keeps h p))

  pub supervise_android-keeps :
      (h : Host c) (device : Bool) → Holds c k h → Holds c k (supervise_android c i all h device)
  unfolding supervise_android
  supervise_android-keeps h device p =
      if-keeps c k (is_stopping c h) _ _ p (supervise-keeps _ device _ (awaits-keeps c k h p))
