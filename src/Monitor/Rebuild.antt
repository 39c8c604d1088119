-- ===== src/Monitor/Rebuild.antt =====
-- `AdbHealthMonitor::recover_transport`: the mappings are removed and installed again, and the relay
-- waits for a new control connection.
use quest_vd_wired.Common.{ℕ, Bool, true, false, not, ◌==◌, if◌then◌else◌, Option, none, some}
use quest_vd_wired.Relay.Controller.{
  goes_inactive_recovering, loses_carrier, loses_carrier_recovering, regains_carrier,
}
use quest_vd_wired.Control.Run.{cancels, loses}
use quest_vd_wired.Recovery.State.{TransportRecoveryTrigger}
use quest_vd_wired.Recovery.Monitor.{
  transport_requires_recovery, begin_transport_recovery_attempt, finish_transport_recovery_attempt,
  expire_transport_recovery_control,
}
use quest_vd_wired.Adb.Actions.{Result, ok, err}
use quest_vd_wired.Adb.Types.{AdbController, TransactionError}
use quest_vd_wired.Adb.Transactions.{reinstall_mappings}
use quest_vd_wired.Monitor.Changes.{
  updates, counts_repair, waits, begins, finishes, schedules, expires,
}
use quest_vd_wired.Monitor.Shared.{transport_recovery_reason}
use quest_vd_wired.Monitor.Host.{Host, is_stopping, changes, calls, steps, awaits, adb}

module _ (c : AdbController) where
  -- `ControlHandle::reset_transport`, with the wait between its halves.
  unfoldable pub reset_control : Host c → Host c
  reset_control h = steps c (awaits c (steps c h cancels)) (loses transport_recovery_reason)

  unfoldable pub rebuilt : ℕ → Host c → Host c
  rebuilt g h =
      let h₁ = reset_control (calls c h goes_inactive_recovering) in
      let h₂ = changes c (changes c h₁ counts_repair) (finishes g true) in
      calls c (changes c h₂ (updates true true true none)) regains_carrier

  unfoldable pub retry_or_rearm : ℕ → Bool → Host c → Host c
  retry_or_rearm g retry h = if retry then h else changes c h (schedules g)

  unfoldable pub not_rebuilt : ℕ → Host c → Host c
  not_rebuilt g h =
      let h₁ = calls c h loses_carrier in
      let retry = (finish_transport_recovery_attempt h₁.shared.monitor g false).1 in
      let message =
        if retry then some "transport_recovery_retry" else some "transport_recovery_failed" in
      retry_or_rearm g retry
        (changes c (changes c h₁ (finishes g false)) (updates true true false message))

  unfoldable pub conclude : ℕ → Result TransactionError (Unit {0}) → Host c → Host c
  conclude g (ok _) h = rebuilt g h
  conclude g (err e) h = not_rebuilt g h

  -- A recovery that began meanwhile makes this one void.
  unfoldable pub settle_rebuild : ℕ → Result TransactionError (Unit {0}) × Host c → Host c
  settle_rebuild g (r, h) =
      if not (h.shared.monitor.recovery.generation == g) then h else conclude g r h

  -- Behind the wait for the operation lock. The commands of the reinstallation are one action: what the
  -- others do during them comes behind it.
  unfoldable pub rebuild : ℕ → Host c → Host c
  rebuild g h = if is_stopping c h then h else settle_rebuild g (adb c (reinstall_mappings c) h)

  unfoldable pub announce_rebuild : Host c → Host c
  announce_rebuild h =
      changes c (calls c h loses_carrier_recovering)
        (updates true true false (some "transport_recovery_rebuilding"))

  unfoldable pub after_begin : Option (ℕ × ℕ × TransportRecoveryTrigger) → Host c → Host c
  after_begin none h = h
  after_begin (some (g, attempt, trigger)) h = rebuild g (awaits c (announce_rebuild h))

  -- From the test of the device on.
  unfoldable pub recover_with : Bool → Host c → Host c
  recover_with false h =
      changes c (changes c (calls c h loses_carrier_recovering) waits)
        (updates true false false (some "transport_recovery_waiting_for_device"))
  recover_with true h =
      after_begin (begin_transport_recovery_attempt h.shared.monitor).1 (changes c h begins)

  unfoldable pub recover_transport : Host c → Bool → Host c × Bool
  recover_transport h device_available =
      if not (transport_requires_recovery h.shared.monitor)
      then (h, false)
      else if is_stopping c h
      then (h, true)
      else (recover_with device_available h, true)

  -- The task that `recover_transport` spawns, when its timeout is over.
  unfoldable pub expire_control : ℕ → ℕ → Host c → Host c
  expire_control g attempt h =
      elim (expire_transport_recovery_control h.shared.monitor g attempt).1 [
        | none ↦ changes c h (expires g attempt)
        | some retry ↦
            retry_or_rearm g retry (calls c (changes c h (expires g attempt)) loses_carrier)
      ]
