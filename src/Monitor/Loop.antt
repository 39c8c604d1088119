-- ===== src/Monitor/Loop.antt =====
-- `AdbHealthMonitor::run`: the track process is spawned again and again, and what it reads, the
-- healthy tick and the notifications are handled one at a time.
use quest_vd_wired.Common.{
  ℕ, Bool, true, if◌then◌else◌, Option, none, some, List, [], ◌∷◌, ok, err, panic,
}
use quest_vd_wired.Protocol.Types.{SessionId}
use quest_vd_wired.Track.Decoder.{TrackDevicesDecoder, new_decoder, push, Pushed}
use quest_vd_wired.Adb.Types.{AdbController, with_mapping_timeout}
use quest_vd_wired.Monitor.Changes.{updates}
use quest_vd_wired.Monitor.Host.{
  Category, track_spawn_failed, track_stdout_unavailable, track_exited, track_decode_failed,
  track_read_failed, Host, is_stopping, changes, awaits,
}
use quest_vd_wired.Monitor.Arms.{
  initial_backoff, max_backoff, next_backoff, on_update, on_healthy_tick, on_changed, track_failed,
}

-- What `select!` takes next: bytes of the track process, none at its end, an error, a tick, or a
-- notification.
pub data Event : Type 0 where
  reads : List ℕ → Event
  exits read_fails ticks notified : Event

-- How the inner loop ends; `goes_on` is that the events did.
pub data Ended : Type 0 where
  tracker_failed : Category → Ended
  stopped goes_on : Ended

-- One turn of the outer loop.
pub data Attempt : Type 0 where
  spawn_fails has_no_stdout : Attempt
  tracks : List Event → Attempt

module _ (c : AdbController) (session_id : SessionId) (all_traffic : Bool) where
  -- The updates of one chunk, with the last of them.
  unfoldable pub on_updates : Option Bool → List Bool → Host c → Option Bool × Host c
  on_updates device [] h = (device, h)
  on_updates device (available ∷ rest) h =
      on_updates (some available) rest (on_update c available h)

  -- What the inner loop keeps: the decoder, the last update, the backoff and the host.
  pub record Tracking : Type 0 where
    pub decoder : TrackDevicesDecoder
    pub device_available : Option Bool
    pub backoff : ℕ
    pub host : Host c

  -- After an arm the stop flag is looked at, unless the tracker failed.
  abbrev pub check_stop : Tracking → Ended × Tracking
  check_stop k = if is_stopping c k.host then (stopped, k) else (goes_on, k)

  -- A decoder that ended without a result would be one that ran out of fuel or panicked, which it never
  -- does, by `push_ends` of Track/Updates.
  unfoldable pub on_decoded : Tracking → Option Pushed → Ended × Tracking
  on_decoded k none = (tracker_failed track_decode_failed, k)
  on_decoded k (some panic) = (tracker_failed track_decode_failed, k)
  on_decoded k (some (err e)) = (tracker_failed track_decode_failed, k)
  on_decoded k (some (ok (decoder, available))) =
      let (device, h) = on_updates k.device_available available k.host in
      check_stop (record k { decoder = decoder; device_available = device; host = h })

  unfoldable pub on_event : Event → Tracking → Ended × Tracking
  on_event (reads bytes) k = on_decoded k (push k.decoder bytes)
  on_event exits k = (tracker_failed track_exited, k)
  on_event read_fails k = (tracker_failed track_read_failed, k)
  on_event ticks k = check_stop (record k {
    backoff = initial_backoff;
    host = on_healthy_tick c session_id all_traffic k.device_available k.host;
  })
  on_event notified k = check_stop (record k { host = on_changed c k.device_available k.host })

  abbrev pub unless_ended : Ended × Tracking → (Tracking → Ended × Tracking) → Ended × Tracking
  unless_ended (tracker_failed category, k) rest = (tracker_failed category, k)
  unless_ended (stopped, k) rest = (stopped, k)
  unless_ended (goes_on, k) rest = rest k

  -- The inner loop. Other tasks act between two events.
  unfoldable pub track : List Event → Tracking → Ended × Tracking
  track [] k = (goes_on, k)
  track (e ∷ es) k = unless_ended (on_event e (record k { host = awaits c k.host })) (track es)

  -- The wait before the next turn: with the next backoff, unless the stop flag is set.
  unfoldable pub back_off : ℕ → Host c → Option ℕ × Host c
  back_off backoff h =
      let h₁ = awaits c h in
      if is_stopping c h₁ then (none, h₁) else (some (next_backoff backoff max_backoff), h₁)

  -- A failed turn: the backoff of the next one, or the end.
  unfoldable pub fail_turn : Category → ℕ → Host c → Option ℕ × Host c
  fail_turn category backoff h = back_off backoff (track_failed c category h)

  -- Behind the inner loop, with the waits for the end of the child.
  unfoldable pub after_track : Ended × Tracking → Option ℕ × Host c
  after_track (goes_on, k) = (none, k.host)
  after_track (stopped, k) = (none, awaits c k.host)
  after_track (tracker_failed category, k) =
      let h = awaits c k.host in
      if is_stopping c h then (none, h) else fail_turn category k.backoff h

  unfoldable pub begin_tracking : ℕ → Host c → Tracking
  begin_tracking backoff h =
      let previous = h.shared.monitor.status in
      record {
        decoder = new_decoder;
        device_available = none;
        backoff = backoff;
        host = changes c h (updates true previous.device_available previous.mappings_healthy none);
      }

  unfoldable pub turn : Attempt → ℕ → Host c → Option ℕ × Host c
  turn spawn_fails backoff h = fail_turn track_spawn_failed backoff h
  turn has_no_stdout backoff h = fail_turn track_stdout_unavailable backoff (awaits c h)
  turn (tracks es) backoff h = after_track (track es (begin_tracking backoff h))

  abbrev pub next_turn : (ℕ → Host c → Host c) → Option ℕ × Host c → Host c
  next_turn rest (none, h) = h
  next_turn rest (some backoff, h) = rest backoff h

  -- The outer loop, over the turns that are given.
  unfoldable pub run_turns : List Attempt → ℕ → Host c → Host c
  run_turns [] backoff h = h
  run_turns (a ∷ rest) backoff h =
      if is_stopping c h then h else next_turn (run_turns rest) (turn a backoff h)

abbrev pub monitor_adb_timeout : ℕ
monitor_adb_timeout = 500000000

-- `run`, with the shorter limit for the commands on mappings.
unfoldable pub run :
    (c : AdbController)
    → SessionId
    → Bool
    → List Attempt
    → Host (with_mapping_timeout c monitor_adb_timeout)
    → Host (with_mapping_timeout c monitor_adb_timeout)
run c session_id all_traffic turns h =
    run_turns (with_mapping_timeout c monitor_adb_timeout) session_id all_traffic turns
      initial_backoff h
