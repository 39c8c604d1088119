-- ===== src/Monitor/Reconcile.antt =====
-- `AdbHealthMonitor::reconcile`: the mappings are looked at, and those that are missing are added.
use quest_vd_wired.Common.{ℕ, ◌-◌, Bool, true, false, not, if◌then◌else◌, none, some, List, [], ◌∷◌}
use quest_vd_wired.HostState.Machine.{HostState}
use quest_vd_wired.Relay.Controller.{
  pending_control_epoch, suspends_if, loses_carrier, loses_carrier_recovering, regains_carrier,
}
use quest_vd_wired.Adb.Actions.{Result, ok, err}
use quest_vd_wired.Adb.Types.{AdbError, AdbController, ReverseMapping, MappingHealth, is_healthy}
use quest_vd_wired.Adb.Commands.{mapping_health, add_mapping}
use quest_vd_wired.Adb.Status.{AndroidVpnStatus, android_status_quick, says_asleep}
use quest_vd_wired.Monitor.Changes.{updates, probes, counts_repair, disconnects}
use quest_vd_wired.Monitor.Host.{
  device_unavailable, mapping_repair_failed, mapping_probe_failed, is_active, is_degraded, Host,
  lifecycle, is_stopping, changes, calls, awaits, now, adb, record_loss,
}

module _ (c : AdbController) where
  unfoldable pub confirm_sleep : ℕ → Result AdbError AndroidVpnStatus × Host c → Host c
  confirm_sleep epoch (ok status, h) =
      if says_asleep status then calls c h (suspends_if epoch) else h
  confirm_sleep epoch (err e, h) = h

  unfoldable pub reconcile_android_sleep : Host c → Host c
  reconcile_android_sleep h =
      if is_stopping c h then h else elim (pending_control_epoch h.shared.gate) [
        | none ↦ h
        | some epoch ↦ confirm_sleep epoch (adb c (android_status_quick c) h)
      ]

  -- How the loop over the missing mappings ends.
  pub data Repair : Type 0 where
    interrupted broken repaired : Repair

  abbrev pub after_add :
      (Host c → Repair × Host c) → Result AdbError (Unit {0}) × Host c → Repair × Host c
  after_add rest (ok _, h) = rest h
  after_add rest (err e, h) = (broken, h)

  unfoldable pub repair_each : List ReverseMapping → Host c → Repair × Host c
  repair_each [] h = (repaired, h)
  repair_each (m ∷ ms) h =
      if is_stopping c h
      then (interrupted, h)
      else after_add (repair_each ms) (adb c (add_mapping c m) h)

  unfoldable pub lose_mappings : Host c → Host c
  lose_mappings h = record_loss c (calls c h loses_carrier) true mapping_repair_failed

  unfoldable pub regain : Host c → Host c
  regain h =
      calls c (changes c (changes c h counts_repair) (updates true true true none)) regains_carrier

  unfoldable pub verify_repair : Result AdbError MappingHealth × Host c → Host c
  verify_repair (ok health, h) = if is_healthy health then regain h else lose_mappings h
  verify_repair (err e, h) = lose_mappings h

  unfoldable pub after_repair : Repair × Host c → Host c
  after_repair (interrupted, h) = h
  after_repair (broken, h) = if is_stopping c h then h else lose_mappings h
  after_repair (repaired, h) =
      if is_stopping c h then h else verify_repair (adb c (mapping_health c) h)

  unfoldable pub find_healthy : HostState → Host c → Host c
  find_healthy state h =
      let h₁ = calls c (changes c h (updates true true true none)) regains_carrier in
      if is_degraded state then reconcile_android_sleep h₁ else h₁

  unfoldable pub after_probe : HostState → Result AdbError MappingHealth × Host c → Host c
  after_probe state (ok health, h) =
      if is_healthy health
      then find_healthy state h
      else after_repair (repair_each health.missing h)
  after_probe state (err e, h) = record_loss c h false mapping_probe_failed

  -- With the time that the probe took.
  unfoldable pub probe : Host c → Result AdbError MappingHealth × Host c
  probe h =
      let (started, h₁) = now c h in
      let (r, h₂) = adb c (mapping_health c) h₁ in
      let (ended, h₃) = now c h₂ in (r, changes c h₃ (probes (ended - started)))

  -- Behind the wait for the operation lock.
  unfoldable pub reconcile_mappings : HostState → Host c → Host c
  reconcile_mappings state h = if is_stopping c h then h else after_probe state (probe h)

  unfoldable pub lose_device : HostState → Host c → Host c
  lose_device state h =
      let h₁ = if is_active state then changes c h disconnects else h in
      let h₂ = calls c h₁ loses_carrier_recovering in
      if is_active state
      then record_loss c h₂ false device_unavailable
      else changes c h₂ (updates true false false (some "device_unavailable"))

  -- Behind the wait for the control server's snapshot.
  unfoldable pub reconcile_device : Bool → HostState → Host c → Host c
  reconcile_device device_available state h =
      if not device_available
      then lose_device state h
      else if not (is_active state)
      then changes c h (updates true true false none)
      else reconcile_mappings state (awaits c h)

  unfoldable pub reconcile : Host c → Bool → Host c
  reconcile h device_available =
      if is_stopping c h
      then h
      else (let h₁ = awaits c h in reconcile_device device_available (lifecycle c h₁) h₁)
