-- ===== src/Monitor/Arms.antt =====
-- What `AdbHealthMonitor::run` does on an update of the track process, on the healthy tick, on a
-- notification, and when the track process fails.
use quest_vd_wired.Common.{
  ℕ, ◌*◌, Bool, true, false, ◌&&◌, ◌||◌, not, if◌then◌else◌, Option, none, some, List, bytes_eq,
  codes, min,
}
use quest_vd_wired.Protocol.Types.{SessionId}
use quest_vd_wired.Relay.Controller.{loses_carrier_recovering}
use quest_vd_wired.Recovery.Monitor.{
  transport_requires_recovery, complete_authenticated_transport_recovery,
}
use quest_vd_wired.Adb.Actions.{Result}
use quest_vd_wired.Adb.Actions as Actions
use quest_vd_wired.Adb.Types.{AdbError, AdbController}
use quest_vd_wired.Adb.Commands.{device_state}
use quest_vd_wired.Recovery.State.{Status}
use quest_vd_wired.Monitor.Changes.{
  updates, takes_notice, notifies, completes, disconnects, reconnects,
}
use quest_vd_wired.Monitor.Host.{
  Category, category_text, track_decode_failed, is_active, Host, lifecycle, is_stopping, changes,
  calls, awaits, adb, record_loss,
}
use quest_vd_wired.Monitor.Reconcile.{reconcile}
use quest_vd_wired.Monitor.Rebuild.{recover_transport}
use quest_vd_wired.Monitor.Supervise.{supervise_android}

abbrev pub initial_backoff : ℕ
initial_backoff = 250000000

abbrev pub max_backoff : ℕ
max_backoff = 5000000000

-- `saturating_mul` does not saturate below the maximum.
unfoldable pub next_backoff : ℕ → ℕ → ℕ
next_backoff current maximum = min (current * 2) maximum

unfoldable pub cached_device_is_available : Option Bool → Bool
cached_device_is_available none = false
cached_device_is_available (some available) = available

unfoldable pub should_reconcile_on_healthy_tick : Bool → Option Bool → Bool → Bool
should_reconcile_on_healthy_tick forced device_available mappings_healthy =
    forced || (cached_device_is_available device_available && not mappings_healthy)

-- Whether the answer is `Ok(Ok("device"))`.
abbrev pub confirms_device : Result AdbError (List ℕ) → Bool
confirms_device (Actions.ok state) = bytes_eq state (codes "device")
confirms_device (Actions.err e) = false

abbrev pub is_decode_failure : Category → Bool
is_decode_failure track_decode_failed = true
is_decode_failure _ = false

module _ (c : AdbController) where
  unfoldable pub retry_authenticated_reconcile_if_needed : Host c → Host c
  retry_authenticated_reconcile_if_needed h =
      if is_stopping c h || h.shared.monitor.status.mappings_healthy
      then h
      else changes c h notifies

  unfoldable pub fail_track : Category → Host c → Host c
  fail_track category h =
      let gone = updates false false false (some (category_text category)) in
      let h₁ = awaits c (calls c (changes c h gone) loses_carrier_recovering) in
      let h₂ =
        if is_active (lifecycle c h₁)
        then record_loss c (changes c h₁ disconnects) false category
        else h₁ in
      changes c h₂ gone

  unfoldable pub judge_device : Status → Result AdbError (List ℕ) × Host c → Host c
  judge_device previous (r, h) =
      if confirms_device r
      then changes c h (
          updates false true (previous.device_available && previous.mappings_healthy)
            (some (category_text track_decode_failed)))
      else fail_track track_decode_failed h

  unfoldable pub track_failed : Category → Host c → Host c
  track_failed category h =
      if is_decode_failure category
      then judge_device h.shared.monitor.status (adb c (device_state c) h)
      else fail_track category h

  -- The notice of an authenticated connection is taken, and completes a recovery that waits for it.
  unfoldable pub take_notice : Host c → Bool × Bool × Host c
  take_notice h =
      let forced = h.shared.monitor.authenticated_reconcile in
      let h₁ = changes c h takes_notice in
      if forced
      then (
        true,
        (complete_authenticated_transport_recovery h₁.shared.monitor).1,
        changes c h₁ completes,
      )
      else (false, false, h₁)

  unfoldable pub reconcile_noticed : Bool → Bool → Host c → Host c
  reconcile_noticed forced device_available h =
      let h₁ = reconcile c h device_available in
      if forced then retry_authenticated_reconcile_if_needed h₁ else h₁

  unfoldable pub unless_recovering : Bool → Bool → Host c × Bool → Host c
  unless_recovering forced available (h, true) = h
  unless_recovering forced available (h, false) = reconcile_noticed forced (available || forced) h

  unfoldable pub handle_update : Bool → Bool × Bool × Host c → Host c
  handle_update available (forced, completed, h) =
      if completed then h else unless_recovering forced available (recover_transport c h available)

  unfoldable pub on_update : Bool → Host c → Host c
  on_update available h =
      handle_update available (take_notice (if available then changes c h reconnects else h))

  unfoldable pub handle_tick : Option Bool → Bool × Bool × Host c → Host c
  handle_tick device (forced, completed, h) =
      if not completed && transport_requires_recovery h.shared.monitor
      then (recover_transport c h (cached_device_is_available device)).0
      else if not completed
          && should_reconcile_on_healthy_tick forced device h.shared.monitor.status.mappings_healthy
      then reconcile_noticed forced true h
      else h

  unfoldable pub on_healthy_tick : SessionId → Bool → Option Bool → Host c → Host c
  on_healthy_tick session_id all_traffic device h =
      supervise_android c session_id all_traffic (handle_tick device (take_notice h))
        (cached_device_is_available device)

  unfoldable pub handle_change : Option Bool → Bool × Bool × Host c → Host c
  handle_change device (forced, completed, h) =
      if not completed && transport_requires_recovery h.shared.monitor
      then (recover_transport c h (cached_device_is_available device)).0
      else if not completed && (forced || cached_device_is_available device)
      then reconcile_noticed forced true h
      else h

  unfoldable pub on_changed : Option Bool → Host c → Host c
  on_changed device h = if is_stopping c h then h else handle_change device (take_notice h)
