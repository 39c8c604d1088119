-- ===== src/Monitor/Keeps/Repairs.antt =====
-- `reconcile`.
use quest_vd_wired.Common.{ℕ, Bool, true, false, not, ◌≡◌, refl, Option, none, some, List, [], ◌∷◌}
use quest_vd_wired.HostState.Machine.{HostState}
use quest_vd_wired.Relay.Controller.{
  pending_control_epoch, suspends_if, loses_carrier, loses_carrier_recovering, regains_carrier,
}
use quest_vd_wired.Adb.Actions.{Result, ok, err}
use quest_vd_wired.Adb.Types.{AdbError, AdbController, ReverseMapping, MappingHealth, is_healthy}
use quest_vd_wired.Adb.Commands.{mapping_health, add_mapping}
use quest_vd_wired.Adb.Status.{AndroidVpnStatus, android_status_quick, says_asleep}
use quest_vd_wired.Monitor.Changes.{updates, counts_repair, disconnects}
use quest_vd_wired.Monitor.Shared.{Action, Shared, gate_call, monitor_change}
use quest_vd_wired.Monitor.Host.{
  device_unavailable, mapping_repair_failed, mapping_probe_failed, is_active, is_degraded, Host,
  is_stopping,
}
use quest_vd_wired.Monitor.Reconcile.{
  confirm_sleep, reconcile_android_sleep, Repair, interrupted, broken, repaired, after_add,
  repair_each, lose_mappings, regain, verify_repair, after_repair, find_healthy, after_probe, probe,
  reconcile_mappings, lose_device, reconcile_device, reconcile,
}
use quest_vd_wired.Monitor.Keeps.Waits.{
  Kept, Holds, does-keeps, if-keeps, pair-if-keeps, awaits-keeps, now-keeps, adb-keeps,
  record_loss-keeps,
}

module _ (c : AdbController) {P : Shared → Type 0} {Allowed : Action → Type 0}
    (k : Kept P Allowed) where
  confirm_sleep-keeps :
      (epoch : ℕ) (q : Result AdbError AndroidVpnStatus × Host c)
      → Holds c k q.1
      → Holds c k (confirm_sleep c epoch q)
  unfolding confirm_sleep
  confirm_sleep-keeps epoch (ok status, h) p =
      if-keeps c k (says_asleep status) _ _ (does-keeps c k h (gate_call (suspends_if epoch)) _ p) p
  confirm_sleep-keeps epoch (err e, h) p = p

  sleep-keeps_of :
      (h : Host c) (o : Option ℕ)
      → pending_control_epoch h.shared.gate ≡ o
      → Holds c k h
      → Holds c k (reconcile_android_sleep c h)
  unfolding reconcile_android_sleep
  sleep-keeps_of h none e p = rw e (if-keeps c k (is_stopping c h) _ _ p p)
  sleep-keeps_of h (some epoch) e p = rw e (
      if-keeps c k (is_stopping c h) _ _ p
        (confirm_sleep-keeps epoch _ (adb-keeps c k (android_status_quick c) h p)))

  sleep-keeps : (h : Host c) → Holds c k h → Holds c k (reconcile_android_sleep c h)
  sleep-keeps h p = sleep-keeps_of h (pending_control_epoch h.shared.gate) refl p

  after_add-keeps :
      (ms : List ReverseMapping) (q : Result AdbError (Unit {0}) × Host c)
      → ((h : Host c) → Holds c k h → Holds c k (repair_each c ms h).1)
      → Holds c k q.1
      → Holds c k (after_add c (repair_each c ms) q).1
  after_add-keeps ms (ok _, h) rest p = rest h p
  after_add-keeps ms (err e, h) rest p = p

  repair_each-keeps :
      (ms : List ReverseMapping) (h : Host c) → Holds c k h → Holds c k (repair_each c ms h).1
  unfolding repair_each
  repair_each-keeps [] h p = p
  repair_each-keeps (m ∷ ms) h p =
      pair-if-keeps c k (is_stopping c h) _ _ p
        (after_add-keeps ms _ (repair_each-keeps ms) (adb-keeps c k (add_mapping c m) h p))

  lose_mappings-keeps : (h : Host c) → Holds c k h → Holds c k (lose_mappings c h)
  unfolding lose_mappings
  lose_mappings-keeps h p =
      record_loss-keeps c k _ true mapping_repair_failed
        (does-keeps c k h (gate_call loses_carrier) _ p)

  regain-keeps : (h : Host c) → Holds c k h → Holds c k (regain c h)
  unfolding regain
  regain-keeps h p =
      does-keeps c k _ _ _
        (does-keeps c k _ _ _ (does-keeps c k h (monitor_change counts_repair) _ p))

  verify_repair-keeps :
      (q : Result AdbError MappingHealth × Host c) → Holds c k q.1 → Holds c k (verify_repair c q)
  unfolding verify_repair
  verify_repair-keeps (ok health, h) p =
      if-keeps c k (is_healthy health) _ _ (regain-keeps h p) (lose_mappings-keeps h p)
  verify_repair-keeps (err e, h) p = lose_mappings-keeps h p

  after_repair-keeps : (q : Repair c × Host c) → Holds c k q.1 → Holds c k (after_repair c q)
  unfolding after_repair
  after_repair-keeps (interrupted, h) p = p
  after_repair-keeps (broken, h) p = if-keeps c k (is_stopping c h) _ _ p (lose_mappings-keeps h p)
  after_repair-keeps (repaired, h) p =
      if-keeps c k (is_stopping c h) _ _ p
        (verify_repair-keeps _ (adb-keeps c k (mapping_health c) h p))

  find_healthy-keeps : (x : HostState) (h : Host c) → Holds c k h → Holds c k (find_healthy c x h)
  unfolding find_healthy
  find_healthy-keeps x h p =
      let q =
        does-keeps c k _ (gate_call regains_carrier) _
          (does-keeps c k h (monitor_change (updates true true true none)) _ p) in
      if-keeps c k (is_degraded x) _ _ (sleep-keeps _ q) q

  after_probe-keeps :
      (x : HostState) (q : Result AdbError MappingHealth × Host c)
      → Holds c k q.1
      → Holds c k (after_probe c x q)
  unfolding after_probe
  after_probe-keeps x (ok health, h) p =
      if-keeps c k (is_healthy health) _ _ (find_healthy-keeps x h p)
        (after_repair-keeps _ (repair_each-keeps health.missing h p))
  after_probe-keeps x (err e, h) p = record_loss-keeps c k h false mapping_probe_failed p

  probe-keeps : (h : Host c) → Holds c k h → Holds c k (probe c h).1
  unfolding probe
  probe-keeps h p =
      does-keeps c k _ _ _
        (now-keeps c k _ (adb-keeps c k (mapping_health c) _ (now-keeps c k h p)))

  reconcile_mappings-keeps :
      (x : HostState) (h : Host c) → Holds c k h → Holds c k (reconcile_mappings c x h)
  unfolding reconcile_mappings
  reconcile_mappings-keeps x h p =
      if-keeps c k (is_stopping c h) _ _ p (after_probe-keeps x _ (probe-keeps h p))

  lose_device-keeps : (x : HostState) (h : Host c) → Holds c k h → Holds c k (lose_device c x h)
  unfolding lose_device
  lose_device-keeps x h p =
      let q =
        does-keeps c k _ (gate_call loses_carrier_recovering) _
          (if-keeps c k (is_active x) _ _ (does-keeps c k h (monitor_change disconnects) _ p) p) in
      if-keeps c k (is_active x) _ _ (record_loss-keeps c k _ false device_unavailable q)
        (does-keeps c k _ _ _ q)

  reconcile_device-keeps :
      (device : Bool) (x : HostState) (h : Host c)
      → Holds c k h
      → Holds c k (reconcile_device c device x h)
  unfolding reconcile_device
  reconcile_device-keeps device x h p = if-keeps c k (not device) _ _ (lose_device-keeps x h p) (
      if-keeps c k (not (is_active x)) _ _ (does-keeps c k h _ _ p)
        (reconcile_mappings-keeps x _ (awaits-keeps c k h p)))

  pub reconcile-keeps :
      (h : Host c) (device : Bool) → Holds c k h → Holds c k (reconcile c h device)
  unfolding reconcile
  reconcile-keeps h device p =
      if-keeps c k (is_stopping c h) _ _ p
        (reconcile_device-keeps device _ _ (awaits-keeps c k h p))
