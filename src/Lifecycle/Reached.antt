-- ===== src/Lifecycle/Reached.antt =====
-- What a lifecycle command asks of the host itself, apart from the headset.
use quest_vd_wired.Common.{ℕ, Bool, true, false, if◌then◌else◌}
use quest_vd_wired.Protocol.Types.{SessionId}
use quest_vd_wired.Adb.Types.{AdbController}
use quest_vd_wired.Lifecycle.Platform.{Snapshot, Command, Platform}

module _ (c : AdbController) (p : Platform c.executor.World) where
  open c use {executor}

  -- One world comes from another by calls of the system and of the daemon alone: adb is asked nothing.
  pub data OnHost (w : executor.World) : executor.World → Type 0 where
    unmoved : OnHost w w
    acquired : {v : executor.World} → OnHost w v → OnHost w (p.acquire_operation v).1
    read_pid : {v : executor.World} → OnHost w v → OnHost w (p.read_daemon_pid v).1
    asked_process :
        {v : executor.World} (pid : ℕ) → OnHost w v → OnHost w (p.process_is_running pid v).1
    asked_runtime : {v : executor.World} → OnHost w v → OnHost w (p.runtime_may_be_active v).1
    materialized : {v : executor.World} → OnHost w v → OnHost w (p.materialize_apk v).1
    drew_session : {v : executor.World} → OnHost w v → OnHost w (p.random_session v).1
    spawned :
        {v : executor.World} (session : SessionId) (all_traffic : Bool)
        → OnHost w v
        → OnHost w (p.spawn_daemon session all_traffic v).1
    awaited_ready : {v : executor.World} (pid : ℕ) → OnHost w v → OnHost w (p.ready_polls pid v).1
    took_back : {v : executor.World} → OnHost w v → OnHost w (p.terminate_spawned_daemon v).1
    commanded :
        {v : executor.World} (command : Command)
        → OnHost w v
        → OnHost w (p.admin_command command v).1
    terminated : {v : executor.World} → OnHost w v → OnHost w (p.terminate_daemon v).1
    awaited_exit : {v : executor.World} → OnHost w v → OnHost w (p.wait_for_daemon_exit v).1
    removed_pid : {v : executor.World} → OnHost w v → OnHost w (p.remove_daemon_pid v)
    wrote :
        {v : executor.World} (snapshot : Snapshot)
        → OnHost w v
        → OnHost w (p.write_status snapshot v).1
    drained : {v : executor.World} → OnHost w v → OnHost w (p.drain_mapping_command v)

  pub if-OnHost :
      {A : Type 0} (u : executor.World) (b : Bool) (x y : A × executor.World)
      → OnHost u x.1
      → OnHost u y.1
      → OnHost u (if b then x else y).1
  if-OnHost u true x y g h = g
  if-OnHost u false x y g h = h
