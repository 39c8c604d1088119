-- ===== src/Adb/Transactions.antt =====
-- The transactions of `AdbController`: start with its rollback, stop, and the repairs of mappings.
use quest_vd_wired.Common.{ℕ, Bool, true, false, if◌then◌else◌, List, [], ◌∷◌, ◌++◌, codes}
use quest_vd_wired.Protocol.Types.{SessionId}
use quest_vd_wired.Adb.Actions.{Result, ok, err, ◌>>=◌, ◌>>◌, pure, raise, map_err}
use quest_vd_wired.Adb.Types.{
  ReverseMapping, reverse_mappings, AdbOutput, AdbError, Failure, plain, missing_after_add,
  missing_after_reinstall, missing_after_repair, not_verified, start_rollback,
  start_rollback_unverified, stop_request, vpn_closure, force_stop, not_a_product_mapping,
  version_differs, Phase, device_check, device_wake, reverse_setup, reverse_verify, android_start,
  stop_phase, start_quiesce, start_force_quiesce, unresponsive_stop, repair_probe, repair,
  control_stop, resume_reverse_remove, resume_reverse_setup, apk_probe, apk_install, apk_verify,
  TransactionError, single, MappingHealth, is_healthy, StartReceipt, AdbController,
}
use quest_vd_wired.Adb.Parse.{package_version_matches}
use quest_vd_wired.Adb.Commands.{
  Does, stop_args, android_package, virtual_desktop_package, run_checked, run_checked_with,
  wake_android, force_stop_android, send_start_intent, add_mapping, mapping_health,
  remove_all_mappings, verify_vpn_closed, require_device,
}
use quest_vd_wired.Common.{◌==◌}

-- One message, if the call failed.
abbrev pub failures_of : {A : Type 0} → (AdbError → Failure) → Result AdbError A → List Failure
failures_of f (ok a) = []
failures_of f (err e) = f e ∷ []

-- The messages of a health check behind a change of the mappings.
abbrev pub health_failures :
    (List ReverseMapping → Failure) → Result AdbError MappingHealth → List Failure
health_failures f (ok health) = if is_healthy health then [] else f health.missing ∷ []
health_failures f (err e) = not_verified e ∷ []

abbrev pub fails_with : Phase → List Failure → Result TransactionError (Unit {0})
fails_with phase [] = ok tt
fails_with phase (f ∷ fs) = err (record { phase = phase; failures = f ∷ fs })

abbrev pub has_port : ReverseMapping → ReverseMapping → Bool
has_port m n = if m.remote == n.remote then m.local == n.local else false

unfoldable pub is_product : List ReverseMapping → ReverseMapping → Bool
is_product [] m = false
is_product (n ∷ ns) m = if has_port n m then true else is_product ns m

module _ (c : AdbController) where
  open c use {executor}

  -- The mappings are added up to the first failure.
  unfoldable pub add_until_failure :
      List ReverseMapping → executor.World → List Failure × executor.World
  unfolding add_mapping
  add_until_failure [] w = ([], w)
  add_until_failure (m ∷ ms) w =
      let (r, w₁) = add_mapping c m w in
      elim r [ ok _ ↦ add_until_failure ms w₁ | err e ↦ (plain e ∷ [], w₁) ]

  -- All product mappings are removed, and the transaction fails.
  unfoldable pub roll_back : {A : Type 0} → Phase → List Failure → Does c TransactionError A
  unfolding remove_all_mappings
  roll_back phase failures w =
      let (more, w₁) = remove_all_mappings c w in
      (err (record { phase = phase; failures = failures ++ more }), w₁)

  -- The removal is tried in any case; the messages of before come first.
  unfoldable pub clean_up : Phase → List Failure → Does c TransactionError (Unit {0})
  unfolding remove_all_mappings
  clean_up phase failures w =
      let (more, w₁) = remove_all_mappings c w in (fails_with phase (failures ++ more), w₁)

  -- A request that failed counts only if the closure is not verified either.
  abbrev pub stop_failures : Result AdbError AdbOutput → Result AdbError (Unit {0}) → List Failure
  stop_failures request (ok _) = []
  stop_failures request (err e) = failures_of stop_request request ++ (vpn_closure e ∷ [])

  unfoldable pub stop_android_session : Phase → Does c TransactionError (Unit {0})
  unfolding run_checked verify_vpn_closed clean_up
  stop_android_session phase w =
      let (request, w₁) = run_checked c stop_args w in
      let (closed, w₂) = verify_vpn_closed c w₁ in clean_up phase (stop_failures request closed) w₂

  unfoldable pub force_stop_android_session : Phase → Does c TransactionError (Unit {0})
  unfolding force_stop_android verify_vpn_closed clean_up
  force_stop_android_session phase w =
      let (stopped, w₁) = force_stop_android c w in
      let (closed, w₂) = verify_vpn_closed c w₁ in
      clean_up phase (failures_of force_stop stopped ++ failures_of vpn_closure closed) w₂

  abbrev pub behind : TransactionError → TransactionError → TransactionError
  behind graceful forced = record {
    phase = forced.phase;
    failures = graceful.failures ++ forced.failures;
  }

  -- The process is killed if the graceful stop was not verified.
  abbrev pub after_graceful :
      Result TransactionError (Unit {0}) × executor.World
      → Result TransactionError (Unit {0}) × executor.World
  after_graceful (ok _, w) = (ok tt, w)
  after_graceful (err graceful, w) =
      map_err (behind graceful) (force_stop_android_session start_force_quiesce) w

  unfoldable pub quiesce_android_session : Does c TransactionError (Unit {0})
  unfolding stop_android_session force_stop_android_session
  quiesce_android_session w = after_graceful (stop_android_session start_quiesce w)

  unfoldable pub stop : Does c TransactionError (Unit {0})
  unfolding require_device wake_android stop_android_session
  stop = do
    map_err (single stop_phase) (require_device c)
    map_err (single device_wake) (wake_android c)
    stop_android_session stop_phase

  unfoldable pub stop_unresponsive : Does c TransactionError (Unit {0})
  unfolding require_device force_stop_android_session
  stop_unresponsive = do
    map_err (single unresponsive_stop) (require_device c)
    force_stop_android_session unresponsive_stop

  -- `finish_control_stop`: Android has said that it stopped.
  unfoldable pub finish_control_stop : Does c TransactionError (Unit {0})
  unfolding verify_vpn_closed clean_up
  finish_control_stop w =
      let (closed, w₁) = verify_vpn_closed c w in
      clean_up control_stop (failures_of vpn_closure closed) w₁

  -- Without failures the transaction goes on, and else it is rolled back.
  abbrev pub unless_failed :
      Phase → List Failure × executor.World → Result TransactionError (Unit {0}) × executor.World
  unless_failed phase ([], w) = (ok tt, w)
  unless_failed phase (f ∷ fs, w) = roll_back phase (f ∷ fs) w

  -- `start` from the mappings on: added,
  unfoldable pub set_up_mappings : Does c TransactionError (Unit {0})
  unfolding add_until_failure roll_back
  set_up_mappings w = unless_failed reverse_setup (add_until_failure reverse_mappings w)

  -- verified,
  unfoldable pub verify_mappings : Does c TransactionError (Unit {0})
  unfolding mapping_health roll_back
  verify_mappings w =
      let (health, w₁) = mapping_health c w in
      unless_failed reverse_verify (health_failures missing_after_add health, w₁)

  -- and the service started; an intent that fails is taken back.
  unfoldable pub take_back_start : AdbError → Does c TransactionError (Unit {0})
  unfolding run_checked verify_vpn_closed roll_back
  take_back_start error w =
      let (rollback, w₁) = run_checked c stop_args w in
      let (closed, w₂) = verify_vpn_closed c w₁ in
      roll_back android_start
        (plain error
          ∷ (failures_of start_rollback rollback ++ failures_of start_rollback_unverified closed))
        w₂

  abbrev pub unless_unsent :
      Result AdbError (Unit {0}) × executor.World
      → Result TransactionError (Unit {0}) × executor.World
  unless_unsent (ok _, w) = (ok tt, w)
  unless_unsent (err e, w) = take_back_start e w

  unfoldable pub start_service : SessionId → Bool → Does c TransactionError (Unit {0})
  unfolding send_start_intent take_back_start
  start_service session_id all_traffic w =
      unless_unsent (send_start_intent c session_id all_traffic w)

  unfoldable pub start_receipt : SessionId → Bool → StartReceipt
  start_receipt session_id all_traffic = record {
    session_id = session_id;
    all_traffic = all_traffic;
    allowed_package = virtual_desktop_package;
    mappings = reverse_mappings;
  }

  -- What `start` does before the first mapping.
  unfoldable pub prepare_start : Does c TransactionError (Unit {0})
  unfolding require_device wake_android quiesce_android_session
  prepare_start = do
    map_err (single device_check) (require_device c)
    map_err (single device_wake) (wake_android c)
    quiesce_android_session

  -- What it does from the first mapping on.
  unfoldable pub establish : SessionId → Bool → Does c TransactionError (Unit {0})
  unfolding set_up_mappings verify_mappings start_service
  establish session_id all_traffic = do
    set_up_mappings
    verify_mappings
    start_service session_id all_traffic

  unfoldable pub start : SessionId → Bool → Does c TransactionError StartReceipt
  unfolding prepare_start establish start_receipt
  start session_id all_traffic = do
    prepare_start
    establish session_id all_traffic
    pure (start_receipt session_id all_traffic)

  -- All mappings are added and verified, or none is left.
  unfoldable pub add_and_verify : Does c TransactionError (Unit {0})
  unfolding add_until_failure mapping_health roll_back
  add_and_verify w =
      let (added, w₁) = add_until_failure reverse_mappings w in
      elim added [
        | f ∷ fs ↦ roll_back resume_reverse_setup (f ∷ fs) w₁
        | [] ↦
            let (health, w₂) = mapping_health c w₁ in
            unless_failed resume_reverse_setup (health_failures missing_after_reinstall health, w₂)
      ]

  unfoldable pub reinstall_mappings : Does c TransactionError (Unit {0})
  unfolding remove_all_mappings add_and_verify
  reinstall_mappings w =
      let (failures, w₁) = remove_all_mappings c w in
      elim failures [
        | f ∷ fs ↦ (err (record { phase = resume_reverse_remove; failures = f ∷ fs }), w₁)
        | [] ↦ add_and_verify w₁
      ]

  -- The mappings of the product among those given are added, each whatever became of the others.
  unfoldable pub add_missing : List ReverseMapping → executor.World → List Failure × executor.World
  unfolding add_mapping is_product
  add_missing [] w = ([], w)
  add_missing (m ∷ ms) w =
      if is_product reverse_mappings m
      then (let (r, w₁) = add_mapping c m w in
          let (failures, w₂) = add_missing ms w₁ in (failures_of plain r ++ failures, w₂))
      else (let (failures, w₁) = add_missing ms w in (not_a_product_mapping m ∷ failures, w₁))

  unfoldable pub repair_missing_mappings : List ReverseMapping → Does c TransactionError (Unit {0})
  unfolding add_missing mapping_health
  repair_missing_mappings missing w =
      let (failures, w₁) = add_missing missing w in
      let (health, w₂) = mapping_health c w₁ in
      (fails_with repair (failures ++ health_failures missing_after_repair health), w₂)

  unfoldable pub repair_mappings : Does c TransactionError (Unit {0})
  unfolding mapping_health repair_missing_mappings
  repair_mappings = do
    health ← map_err (single repair_probe) (mapping_health c)
    repair_missing_mappings health.missing

  abbrev pub package_args : List (List ℕ)
  package_args =
      codes "-d" ∷ codes "shell" ∷ codes "dumpsys" ∷ codes "package" ∷ android_package ∷ []

  unfoldable pub install_apk : List ℕ → Does c TransactionError (Unit {0})
  unfolding run_checked run_checked_with package_version_matches
  install_apk apk = do
    _ ← map_err (single apk_install) (
        run_checked_with c (codes "-d" ∷ codes "install" ∷ codes "-r" ∷ apk ∷ []) c.install_timeout)
    installed ← map_err (single apk_verify) (run_checked c package_args)
    (if package_version_matches installed.stdout
        then pure tt
        else raise (record { phase = apk_verify; failures = version_differs ∷ [] }))

  unfoldable pub install_matching_apk : List ℕ → Does c TransactionError (Unit {0})
  unfolding require_device run_checked package_version_matches install_apk
  install_matching_apk apk = do
    map_err (single device_check) (require_device c)
    installed ← map_err (single apk_probe) (run_checked c package_args)
    (if package_version_matches installed.stdout then pure tt else install_apk apk)
