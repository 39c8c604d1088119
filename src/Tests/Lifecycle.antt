-- ===== src/Tests/Lifecycle.antt =====
-- The lifecycle commands on a system where everything succeeds and adb prints nothing.
use quest_vd_wired.Common.{
  ℕ, ◌+◌, ◌≡◌, refl, true, false, none, some, List, [], ◌∷◌, codes, replicate,
}
use quest_vd_wired.Protocol.Types.{SessionId}
use quest_vd_wired.Protocol.Session.{display, hex_digit}
use quest_vd_wired.HostState.Machine.{preparing, connected}
use quest_vd_wired.Adb.Actions.{ok}
use quest_vd_wired.Adb.Types.{Executor, AdbController, with_timing}
use quest_vd_wired.Lifecycle.Platform.{Poll, Platform}
use quest_vd_wired.Lifecycle.Start.{start, wait_for_connected}
use quest_vd_wired.Lifecycle.Stop.{stop}
use quest_vd_wired.Lifecycle.Outcomes.{start-Tells}
use quest_vd_wired.Lifecycle.StartRuns as StartRuns
use quest_vd_wired.Lifecycle.Suppressed.{stop-Tells}
use quest_vd_wired.Lifecycle.StopRuns as StopRuns

-- The world is the time.
abbrev quiet_adb : Executor
quiet_adb = record {
  World = ℕ;
  execute = λ args limit w. (ok (record { status = 0; stdout = []; stderr = [] }), w + 1);
  recover_server = λ limit w. (ok tt, w);
  now = λ w. (w, w);
  sleep = λ d w. w + d;
}

abbrev controller : AdbController
controller = with_timing quiet_adb 8 5 1

abbrev session : SessionId
session = record { bytes = replicate 16 7 }

abbrev polls : List Poll
polls =
    record { session_id = none; state = preparing; has_exited = false }
    ∷ record { session_id = some (display session); state = connected; has_exited = false }
    ∷ []

abbrev platform : Platform ℕ
platform = record {
  acquire_operation = λ w. (true, w);
  read_daemon_pid = λ w. (none, w);
  process_is_running = λ pid w. (false, w);
  runtime_may_be_active = λ w. (false, w);
  materialize_apk = λ w. (true, w);
  apk_path = codes "gnirehtet-v4.apk";
  random_session = λ w. (session, w);
  spawn_daemon = λ s all w. (some 42, w);
  ready_polls = λ pid w. (record { is_running = true; is_ready = true } ∷ [], w);
  connected_polls = λ w. (polls, w);
  terminate_spawned_daemon = λ w. (true, w);
  admin_command = λ command w. (some (record { accepted = true; repairs_suppressed = true }), w);
  terminate_daemon = λ w. (true, w);
  wait_for_daemon_exit = λ w. (true, w);
  remove_daemon_pid = λ w. w;
  write_status = λ s w. (true, w);
  drain_mapping_command = λ w. w;
}

connects_at_the_second_poll : wait_for_connected session polls ≡ true
unfolding wait_for_connected display hex_digit
connects_at_the_second_poll = refl

start-Tells_example :
    StartRuns.Tells controller platform true 0
      (start controller platform true 0).0
      (start controller platform true 0).1
start-Tells_example = start-Tells controller platform true 0

stop-Tells_example :
    StopRuns.Tells controller platform 0
      (stop controller platform 0).0
      (stop controller platform 0).1
stop-Tells_example = stop-Tells controller platform 0
