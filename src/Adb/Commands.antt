-- ===== src/Adb/Commands.antt =====
-- The single commands of `AdbController`, each a call of the executor and what is made of its output.
use quest_vd_wired.Common.{
  ℕ, zero, suc, ◌+◌, ◌-◌, Bool, leb, if◌then◌else◌, Option, none, some, List, [], ◌∷◌, ◌++◌, codes,
  bytes_eq, trim, is_empty, min,
}
use quest_vd_wired.Protocol.Types.{SessionId}
use quest_vd_wired.Protocol.Session.{display}
use quest_vd_wired.Adb.Actions.{Result, ok, err, Act, ◌>>=◌, pure, raise}
use quest_vd_wired.Adb.Types.{
  ReverseMapping, reverse_mappings, socks_port, control_port, udp_stream_port, AdbOutput,
  is_success, AdbError, timeout, command_failed, device_not_ready, vpn_still_active, Failure,
  remove_exited, remove_failed, mappings_remain, removal_unverified, MappingHealth, AdbController,
  seconds,
}
use quest_vd_wired.Adb.Parse.{
  tcp, parse_reverse_list, is_listed, owned, mapping_was_already_absent, shows_vpn_closed,
  adb_reports_missing_device, parse_wakefulness,
}
use quest_vd_wired.Common.{decimal}

abbrev pub Does : AdbController → Type 0 → Type 0 → Type 0
Does c E A = Act c.executor.World E A

abbrev pub android_control_activity : List ℕ
android_control_activity = codes "com.genymobile.gnirehtet/.v4.AdbControlActivity"

abbrev pub android_vpn_service : List ℕ
android_vpn_service = codes "com.genymobile.gnirehtet/.v4.VdLinkVpnService"

abbrev pub android_package : List ℕ
android_package = codes "com.genymobile.gnirehtet"

abbrev pub virtual_desktop_package : List ℕ
virtual_desktop_package = codes "VirtualDesktop.Android"

abbrev pub stop_args : List (List ℕ)
stop_args =
    codes "-d"
    ∷ codes "shell"
    ∷ codes "am"
    ∷ codes "start"
    ∷ codes "-n"
    ∷ android_control_activity
    ∷ codes "-a"
    ∷ codes "com.genymobile.gnirehtet.v4.STOP"
    ∷ []

abbrev pub list_args : List (List ℕ)
list_args = codes "-d" ∷ codes "reverse" ∷ codes "--list" ∷ []

abbrev pub dumpsys_args : List (List ℕ)
dumpsys_args =
    codes "-d"
    ∷ codes "shell"
    ∷ codes "dumpsys"
    ∷ codes "activity"
    ∷ codes "service"
    ∷ android_vpn_service
    ∷ []

abbrev pub add_args : ReverseMapping → List (List ℕ)
add_args m = codes "-d" ∷ codes "reverse" ∷ tcp m.remote ∷ tcp m.local ∷ []

abbrev pub remove_args : ReverseMapping → List (List ℕ)
remove_args m = codes "-d" ∷ codes "reverse" ∷ codes "--remove" ∷ tcp m.remote ∷ []

unfoldable pub start_intent_args : SessionId → Bool → List (List ℕ)
start_intent_args session_id all_traffic =
    codes "-d"
    ∷ codes "shell"
    ∷ codes "am"
    ∷ codes "start"
    ∷ codes "-n"
    ∷ android_control_activity
    ∷ codes "-a"
    ∷ codes "com.genymobile.gnirehtet.v4.START"
    ∷ codes "--es"
    ∷ codes "sessionId"
    ∷ display session_id
    ∷ codes "--es"
    ∷ codes "vdPackage"
    ∷ virtual_desktop_package
    ∷ codes "--ei"
    ∷ codes "socksPort"
    ∷ decimal socks_port
    ∷ codes "--ei"
    ∷ codes "udpPort"
    ∷ decimal udp_stream_port
    ∷ codes "--ei"
    ∷ codes "controlPort"
    ∷ decimal control_port
    ∷ codes "--ez"
    ∷ codes "allTraffic"
    ∷ (if all_traffic then codes "true" else codes "false")
    ∷ []

unfoldable pub device_help : List ℕ → List ℕ
device_help state =
    codes "No Quest 3 is available through USB ("
    ++ state
    ++ codes
        "). Connect and unlock the headset with a USB data cable, then accept the USB debugging prompt and try again."

module _ (c : AdbController) where
  open c use {executor}

  -- A command that exits with another status is an error.
  abbrev pub checked : AdbOutput → Does c AdbError AdbOutput
  checked output =
      if is_success output
      then pure output
      else raise (command_failed output.status (trim output.stderr))

  unfoldable pub run_checked_with : List (List ℕ) → ℕ → Does c AdbError AdbOutput
  run_checked_with args limit = executor.execute args limit >>= checked

  unfoldable pub run_checked : List (List ℕ) → Does c AdbError AdbOutput
  unfolding run_checked_with
  run_checked args = run_checked_with args c.command_timeout

  unfoldable pub wake_android : Does c AdbError (Unit {0})
  unfolding run_checked
  wake_android = do
    _ ←
        run_checked
          (codes "-d" ∷ codes "shell" ∷ codes "input" ∷ codes "keyevent" ∷ codes "224" ∷ [])
    pure tt

  unfoldable pub force_stop_android : Does c AdbError (Unit {0})
  unfolding run_checked
  force_stop_android = do
    _ ←
        run_checked
          (codes "-d" ∷ codes "shell" ∷ codes "am" ∷ codes "force-stop" ∷ android_package ∷ [])
    pure tt

  unfoldable pub send_start_intent : SessionId → Bool → Does c AdbError (Unit {0})
  unfolding run_checked start_intent_args
  send_start_intent session_id all_traffic = do
    _ ← run_checked (start_intent_args session_id all_traffic)
    pure tt

  unfoldable pub headset_awake_quick : Does c AdbError (Option Bool)
  unfolding run_checked_with parse_wakefulness
  headset_awake_quick = do
    output ←
        run_checked_with (codes "-d" ∷ codes "shell" ∷ codes "dumpsys" ∷ codes "power" ∷ [])
          (min c.command_timeout (seconds 2))
    pure (parse_wakefulness output.stdout)

  unfoldable pub device_state : Does c AdbError (List ℕ)
  unfolding run_checked_with
  device_state = do
    output ← run_checked_with (codes "-d" ∷ codes "get-state" ∷ []) c.mapping_timeout
    pure (trim output.stdout)

  unfoldable pub add_mapping : ReverseMapping → Does c AdbError (Unit {0})
  unfolding run_checked_with
  add_mapping m = do _ ← run_checked_with (add_args m) c.mapping_timeout; pure tt

  -- The mappings that are not listed.
  unfoldable pub missing_from : List (List ℕ × List ℕ) → List ReverseMapping → List ReverseMapping
  unfolding is_listed
  missing_from listed [] = []
  missing_from listed (m ∷ ms) =
      let rest = missing_from listed ms in
      if is_listed listed (tcp m.remote, tcp m.local) then rest else m ∷ rest

  unfoldable pub mapping_health : Does c AdbError MappingHealth
  unfolding run_checked_with missing_from
  mapping_health = do
    output ← run_checked_with list_args c.mapping_timeout
    pure (record { missing = missing_from (parse_reverse_list output.stdout) reverse_mappings })

  -- What the removal of one mapping adds to the failures.
  unfoldable pub removal_failures : ReverseMapping → Result AdbError AdbOutput → List Failure
  removal_failures m (ok output) =
      if is_success output
      then []
      else if mapping_was_already_absent output
      then []
      else remove_exited m.remote output ∷ []
  removal_failures m (err e) = remove_failed m.remote e ∷ []

  unfoldable pub remove_each : List ReverseMapping → executor.World → List Failure × executor.World
  unfolding removal_failures
  remove_each [] w = ([], w)
  remove_each (m ∷ ms) w =
      let (r, w₁) = executor.execute (remove_args m) c.mapping_timeout w in
      let (failures, w₂) = remove_each ms w₁ in (removal_failures m r ++ failures, w₂)

  -- What the listing after the removals adds.
  unfoldable pub listing_failures : Result AdbError AdbOutput → List Failure
  listing_failures (ok output) = elim (owned (parse_reverse_list output.stdout)) [
    | [] ↦ []
    | m ∷ ms ↦ mappings_remain (m ∷ ms) ∷ []
  ]
  listing_failures (err e) = removal_unverified e ∷ []

  -- The failures that `remove_all_mappings` pushes.
  unfoldable pub remove_all_mappings : executor.World → List Failure × executor.World
  unfolding remove_each run_checked_with listing_failures
  remove_all_mappings w =
      let (failures, w₁) = remove_each reverse_mappings w in
      let (r, w₂) = run_checked_with list_args c.mapping_timeout w₁ in
      (failures ++ listing_failures r, w₂)

  abbrev pub Verdict : Type 0
  Verdict = Option (Result AdbError (Unit {0})) × executor.World

  -- Not closed yet: past the deadline that is the error, and else the loop goes on after a sleep. The
  -- second reading of the clock shortens the sleep to the deadline.
  unfoldable pub wait_or_give_up : ℕ → (executor.World → Verdict) → executor.World → Verdict
  wait_or_give_up deadline again w₁ =
      let (t₁, w₂) = executor.now w₁ in
      let (t₂, w₃) = executor.now w₂ in
      if leb deadline t₁
      then (some (err vpn_still_active), w₂)
      else again (executor.sleep (min c.poll_interval (deadline - t₂)) w₃)

  -- One round, from what dumpsys answered.
  unfoldable pub verify_round :
      ℕ → (executor.World → Verdict) → Result AdbError AdbOutput × executor.World → Verdict
  unfolding wait_or_give_up
  verify_round deadline again (err e, w₁) = (some (err e), w₁)
  verify_round deadline again (ok output, w₁) =
      if shows_vpn_closed output.stdout
      then (some (ok tt), w₁)
      else wait_or_give_up deadline again w₁

  -- The loop of `verify_vpn_closed`, on fuel; `none` is that the fuel ran out.
  unfoldable pub verify_rounds : ℕ → ℕ → executor.World → Verdict
  unfolding run_checked verify_round
  verify_rounds zero deadline w = (none, w)
  verify_rounds (suc fuel) deadline w =
      verify_round deadline (verify_rounds fuel deadline) (run_checked dumpsys_args w)

  abbrev pub or_still_active : Verdict → Result AdbError (Unit {0}) × executor.World
  or_still_active (none, w) = (err vpn_still_active, w)
  or_still_active (some r, w) = (r, w)

  -- The fuel is enough, by `verify_ends` of Deadline: `none` never comes to be the answer.
  unfoldable pub verify_vpn_closed : Does c AdbError (Unit {0})
  unfolding verify_rounds
  verify_vpn_closed w =
      let (t, w₁) = executor.now w in
      or_still_active (verify_rounds (c.stop_timeout + 2) (t + c.stop_timeout) w₁)

  -- The arms of `require_device` on an output, and on an error that is not retried.
  unfoldable pub judge_state : AdbOutput → Result AdbError (Unit {0})
  unfolding device_help
  judge_state output =
      let state = trim output.stdout in
      if bytes_eq state (codes "device")
      then ok tt
      else err (device_not_ready (device_help (if is_empty state then codes "unknown" else state)))

  unfoldable pub judge_error : AdbError → AdbError
  unfolding adb_reports_missing_device device_help
  judge_error (timeout limit) = device_not_ready (device_help (codes "not responding"))
  judge_error error =
      if adb_reports_missing_device error
      then device_not_ready (device_help (codes "not found"))
      else error

  abbrev pub get_state : Does c AdbError AdbOutput
  get_state = run_checked_with (codes "-d" ∷ codes "get-state" ∷ []) c.device_timeout

  -- The second attempt, which always returns.
  unfoldable pub require_device_again : Does c AdbError (Unit {0})
  unfolding run_checked_with judge_state judge_error
  require_device_again w =
      let (r, w₁) = get_state w in
      elim r [ ok output ↦ (judge_state output, w₁) | err e ↦ (err (judge_error e), w₁) ]

  abbrev pub pause : Does c AdbError (Unit {0})
  pause w = (ok tt, executor.sleep c.poll_interval w)

  -- After the first attempt: a timeout is retried once, behind a restart of the adb server.
  unfoldable pub after_first_attempt : Result AdbError AdbOutput → Does c AdbError (Unit {0})
  unfolding require_device_again judge_state judge_error
  after_first_attempt (ok output) w = (judge_state output, w)
  after_first_attempt (err (timeout limit)) w =
      (executor.recover_server c.device_timeout >>= λ _. pause >>= λ _. require_device_again) w
  after_first_attempt (err e) w = (err (judge_error e), w)

  unfoldable pub require_device : Does c AdbError (Unit {0})
  unfolding run_checked_with after_first_attempt
  require_device w = let (r, w₁) = get_state w in after_first_attempt r w₁
