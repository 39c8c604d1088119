-- ===== src/Monitor/Host.antt =====
-- The monitor's task among the others: its calls of adb, its waits, and `record_loss`.
use quest_vd_wired.Common.{ℕ, Bool, true, false, if◌then◌else◌, some, List, [], ◌∷◌, String}
use quest_vd_wired.HostState.Machine.{HostState, connected, degraded}
use quest_vd_wired.Relay.Controller as Relay
use quest_vd_wired.Control.Run as Control
use quest_vd_wired.Control.Run.{loses}
use quest_vd_wired.Recovery.Status.{update_status}
use quest_vd_wired.Adb.Actions.{Result, Act}
use quest_vd_wired.Adb.Types.{AdbController}
use quest_vd_wired.Monitor.Changes.{Change, updates}
use quest_vd_wired.Monitor.Shared.{
  Shared, Action, gate_call, control_step, monitor_change, act, act_all,
}

-- The `&'static str` of a loss or a failed track process.
pub data Category : Type 0 where
  device_unavailable mapping_repair_failed mapping_probe_failed : Category
  track_spawn_failed track_stdout_unavailable track_exited track_decode_failed track_read_failed :
      Category

abbrev pub category_text : Category → String
category_text device_unavailable = "device_unavailable"
category_text mapping_repair_failed = "mapping_repair_failed"
category_text mapping_probe_failed = "mapping_probe_failed"
category_text track_spawn_failed = "track_spawn_failed"
category_text track_stdout_unavailable = "track_stdout_unavailable"
category_text track_exited = "track_exited"
category_text track_decode_failed = "track_decode_failed"
category_text track_read_failed = "track_read_failed"

-- `format!("ADB carrier unavailable ({category})")`
abbrev pub loss_reason : Category → String
loss_reason device_unavailable = "ADB carrier unavailable (device_unavailable)"
loss_reason mapping_repair_failed = "ADB carrier unavailable (mapping_repair_failed)"
loss_reason mapping_probe_failed = "ADB carrier unavailable (mapping_probe_failed)"
loss_reason track_spawn_failed = "ADB carrier unavailable (track_spawn_failed)"
loss_reason track_stdout_unavailable = "ADB carrier unavailable (track_stdout_unavailable)"
loss_reason track_exited = "ADB carrier unavailable (track_exited)"
loss_reason track_decode_failed = "ADB carrier unavailable (track_decode_failed)"
loss_reason track_read_failed = "ADB carrier unavailable (track_read_failed)"

-- `matches!(state, HostState::Connected | HostState::Degraded)`
abbrev pub is_active : HostState → Bool
is_active connected = true
is_active degraded = true
is_active _ = false

abbrev pub is_degraded : HostState → Bool
is_degraded degraded = true
is_degraded _ = false

module _ (c : AdbController) where
  open c use {executor}

  -- `others` is what the other tasks do, one list for each wait.
  pub record Host : Type 0 where
    pub shared : Shared
    pub world : executor.World
    pub others : List (List Action)

  abbrev pub lifecycle : Host → HostState
  lifecycle h = h.shared.control.server.machine.state

  abbrev pub is_stopping : Host → Bool
  is_stopping h = h.shared.monitor.stopping

  -- One step of this task.
  unfoldable pub does : Host → Action → Host
  unfolding act
  does h a = record h { shared = act h.shared a }

  abbrev pub changes : Host → Change → Host
  changes h x = does h (monitor_change x)

  abbrev pub calls : Host → Relay.Call → Host
  calls h x = does h (gate_call x)

  abbrev pub steps : Host → Control.Step → Host
  steps h x = does h (control_step x)

  unfoldable pub interrupt : Host → List (List Action) → Host
  unfolding act_all
  interrupt h [] = h
  interrupt h (now ∷ later) = record h { shared = act_all h.shared now; others = later }

  -- An `.await`: a wait for a lock, or for a blocking call.
  unfoldable pub awaits : Host → Host
  unfolding act_all
  awaits h = interrupt h h.others

  unfoldable pub now : Host → ℕ × Host
  now h = let (t, w) = executor.now h.world in (t, record h { world = w })

  -- `spawn_blocking` of a call of adb, and the wait for it. The worker does not panic, so the join
  -- does not fail.
  unfoldable pub adb : {E A : Type 0} → Act executor.World E A → Host → Result E A × Host
  unfolding awaits
  adb action h = let (r, w) = action h.world in (r, awaits (record h { world = w }))

  -- Only a status that changed is told to the control server, which publishes it.
  unfoldable pub record_loss : Host → Bool → Category → Host
  record_loss h device_available category =
      let m = h.shared.monitor in
      let text = some (category_text category) in
      let h₁ = changes h (updates true device_available false text) in
      if (update_status m true device_available false text).1
      then steps (awaits h₁) (loses (loss_reason category))
      else h₁
