-- ===== src/Monitor/Keeps/Turns.antt =====
-- The arms of the loop, and the loop.
use quest_vd_wired.Common.{
  ℕ, Bool, true, false, if◌then◌else◌, Option, none, some, List, [], ◌∷◌, ok, err, panic,
}
use quest_vd_wired.Protocol.Types.{SessionId}
use quest_vd_wired.Track.Decoder.{push, Pushed}
use quest_vd_wired.Adb.Actions.{Result}
use quest_vd_wired.Adb.Types.{AdbError, AdbController}
use quest_vd_wired.Adb.Commands.{device_state}
use quest_vd_wired.Recovery.State.{Status}
use quest_vd_wired.Monitor.Shared.{Action, Shared}
use quest_vd_wired.Monitor.Host.{Category, Host, is_stopping, awaits}
use quest_vd_wired.Monitor.Arms.{
  retry_authenticated_reconcile_if_needed, fail_track, judge_device, track_failed, take_notice,
  reconcile_noticed, unless_recovering, handle_update, on_update, handle_tick, on_healthy_tick,
  handle_change, on_changed,
}
use quest_vd_wired.Monitor.Loop.{
  Event, reads, exits, read_fails, ticks, notified, Ended, tracker_failed, stopped, goes_on,
  Attempt, spawn_fails, has_no_stdout, tracks, on_updates, Tracking, check_stop, on_decoded,
  on_event, unless_ended, track, back_off, fail_turn, after_track, begin_tracking, turn, next_turn,
  run_turns,
}
use quest_vd_wired.Monitor.Keeps.Waits.{
  Kept, Holds, does-keeps, if-keeps, pair-if-keeps, awaits-keeps, adb-keeps, record_loss-keeps,
}
use quest_vd_wired.Monitor.Keeps.Repairs.{reconcile-keeps}
use quest_vd_wired.Monitor.Keeps.Rebuilds.{recover_transport-keeps}
use quest_vd_wired.Monitor.Keeps.Restarts.{supervise_android-keeps}

module _ (c : AdbController) {P : Shared → Type 0} {Allowed : Action → Type 0}
    (k : Kept P Allowed) where
  retry-keeps : (h : Host c) → Holds c k h → Holds c k (retry_authenticated_reconcile_if_needed c h)
  unfolding retry_authenticated_reconcile_if_needed
  retry-keeps h p = if-keeps c k _ _ _ p (does-keeps c k h _ _ p)

  fail_track-keeps : (x : Category) (h : Host c) → Holds c k h → Holds c k (fail_track c x h)
  unfolding fail_track
  fail_track-keeps x h p =
      let q = awaits-keeps c k _ (does-keeps c k _ _ _ (does-keeps c k h _ _ p)) in
      does-keeps c k _ _ _
        (if-keeps c k _ _ _ (record_loss-keeps c k _ false x (does-keeps c k _ _ _ q)) q)

  judge_device-keeps :
      (s : Status) (q : Result AdbError (List ℕ) × Host c)
      → Holds c k q.1
      → Holds c k (judge_device c s q)
  unfolding judge_device
  judge_device-keeps s (r, h) p =
      if-keeps c k _ _ _ (does-keeps c k h _ _ p) (fail_track-keeps _ h p)

  track_failed-keeps : (x : Category) (h : Host c) → Holds c k h → Holds c k (track_failed c x h)
  unfolding track_failed
  track_failed-keeps x h p =
      if-keeps c k _ _ _ (judge_device-keeps _ _ (adb-keeps c k (device_state c) h p))
        (fail_track-keeps x h p)

  take_notice-keeps : (h : Host c) → Holds c k h → Holds c k (take_notice c h).2
  unfolding take_notice
  take_notice-keeps h p =
      let q = does-keeps c k h _ _ p in
      triple-if-keeps h.shared.monitor.authenticated_reconcile _ _ (does-keeps c k _ _ _ q) q
    where
      triple-if-keeps :
          (b : Bool) (x y : Bool × Bool × Host c)
          → Holds c k x.2
          → Holds c k y.2
          → Holds c k (if b then x else y).2
      triple-if-keeps true x y p q = p
      triple-if-keeps false x y p q = q

  noticed-keeps :
      (forced device : Bool) (h : Host c)
      → Holds c k h
      → Holds c k (reconcile_noticed c forced device h)
  unfolding reconcile_noticed
  noticed-keeps forced device h p =
      let q = reconcile-keeps c k h device p in if-keeps c k forced _ _ (retry-keeps _ q) q

  unless_recovering-keeps :
      (forced available : Bool) (q : Host c × Bool)
      → Holds c k q.0
      → Holds c k (unless_recovering c forced available q)
  unfolding unless_recovering
  unless_recovering-keeps forced available (h, true) p = p
  unless_recovering-keeps forced available (h, false) p = noticed-keeps forced _ h p

  handle_update-keeps :
      (available : Bool) (q : Bool × Bool × Host c)
      → Holds c k q.2
      → Holds c k (handle_update c available q)
  unfolding handle_update
  handle_update-keeps available (forced, completed, h) p =
      if-keeps c k completed _ _ p
        (unless_recovering-keeps forced available _ (recover_transport-keeps c k h available p))

  on_update-keeps :
      (available : Bool) (h : Host c) → Holds c k h → Holds c k (on_update c available h)
  unfolding on_update
  on_update-keeps available h p =
      handle_update-keeps available _
        (take_notice-keeps _ (if-keeps c k available _ _ (does-keeps c k h _ _ p) p))

  handle_tick-keeps :
      (device : Option Bool) (q : Bool × Bool × Host c)
      → Holds c k q.2
      → Holds c k (handle_tick c device q)
  unfolding handle_tick
  handle_tick-keeps device (forced, completed, h) p =
      if-keeps c k _ _ _ (recover_transport-keeps c k h _ p)
        (if-keeps c k _ _ _ (noticed-keeps forced true h p) p)

  on_healthy_tick-keeps :
      (i : SessionId) (all : Bool) (device : Option Bool) (h : Host c)
      → Holds c k h
      → Holds c k (on_healthy_tick c i all device h)
  unfolding on_healthy_tick
  on_healthy_tick-keeps i all device h p =
      supervise_android-keeps c k i all _ _ (handle_tick-keeps device _ (take_notice-keeps h p))

  handle_change-keeps :
      (device : Option Bool) (q : Bool × Bool × Host c)
      → Holds c k q.2
      → Holds c k (handle_change c device q)
  unfolding handle_change
  handle_change-keeps device (forced, completed, h) p =
      if-keeps c k _ _ _ (recover_transport-keeps c k h _ p)
        (if-keeps c k _ _ _ (noticed-keeps forced true h p) p)

  on_changed-keeps :
      (device : Option Bool) (h : Host c) → Holds c k h → Holds c k (on_changed c device h)
  unfolding on_changed
  on_changed-keeps device h p =
      if-keeps c k _ _ _ p (handle_change-keeps device _ (take_notice-keeps h p))

module _ (c : AdbController) {P : Shared → Type 0} {Allowed : Action → Type 0} (k : Kept P Allowed)
    (i : SessionId) (all : Bool) where
  on_updates-keeps :
      (us : List Bool) (device : Option Bool) (h : Host c)
      → Holds c k h
      → Holds c k (on_updates c i all device us h).1
  unfolding on_updates
  on_updates-keeps [] device h p = p
  on_updates-keeps (u ∷ us) device h p = on_updates-keeps us (some u) _ (on_update-keeps c k u h p)

  abbrev Tracks : Tracking c i all → Type 0
  Tracks t = Holds c k t.host

  check_stop-keeps : (t : Tracking c i all) → Tracks t → Tracks (check_stop c i all t).1
  check_stop-keeps t p = pair-if-keeps (is_stopping c t.host) _ _ p p
    where
      pair-if-keeps :
          (b : Bool) (x y : Ended × Tracking c i all)
          → Tracks x.1
          → Tracks y.1
          → Tracks (if b then x else y).1
      pair-if-keeps true x y p q = p
      pair-if-keeps false x y p q = q

  on_decoded-keeps :
      (t : Tracking c i all) (o : Option Pushed) → Tracks t → Tracks (on_decoded c i all t o).1
  unfolding on_decoded
  on_decoded-keeps t none p = p
  on_decoded-keeps t (some panic) p = p
  on_decoded-keeps t (some (err e)) p = p
  on_decoded-keeps t (some (ok (d, us))) p =
      check_stop-keeps _ (on_updates-keeps us t.device_available t.host p)

  on_event-keeps : (e : Event) (t : Tracking c i all) → Tracks t → Tracks (on_event c i all e t).1
  unfolding on_event
  on_event-keeps (reads bytes) t p = on_decoded-keeps t (push t.decoder bytes) p
  on_event-keeps exits t p = p
  on_event-keeps read_fails t p = p
  on_event-keeps ticks t p =
      check_stop-keeps _ (on_healthy_tick-keeps c k i all t.device_available t.host p)
  on_event-keeps notified t p =
      check_stop-keeps _ (on_changed-keeps c k t.device_available t.host p)

  unless_ended-keeps :
      (q : Ended × Tracking c i all) (rest : Tracking c i all → Ended × Tracking c i all)
      → ((t : Tracking c i all) → Tracks t → Tracks (rest t).1)
      → Tracks q.1
      → Tracks (unless_ended c i all q rest).1
  unless_ended-keeps (tracker_failed x, t) rest keep p = p
  unless_ended-keeps (stopped, t) rest keep p = p
  unless_ended-keeps (goes_on, t) rest keep p = keep t p

  track-keeps : (es : List Event) (t : Tracking c i all) → Tracks t → Tracks (track c i all es t).1
  unfolding track
  track-keeps [] t p = p
  track-keeps (e ∷ es) t p =
      let t' : Tracking c i all = record t { host = awaits c t.host } in
      unless_ended-keeps (on_event c i all e t') (track c i all es) (track-keeps es)
        (on_event-keeps e t' (awaits-keeps c k t.host p))

  back_off-keeps : (b : ℕ) (h : Host c) → Holds c k h → Holds c k (back_off c i all b h).1
  unfolding back_off
  back_off-keeps b h p = let q = awaits-keeps c k h p in pair-if-keeps c k _ _ _ q q

  fail_turn-keeps :
      (x : Category) (b : ℕ) (h : Host c) → Holds c k h → Holds c k (fail_turn c i all x b h).1
  unfolding fail_turn
  fail_turn-keeps x b h p = back_off-keeps b _ (track_failed-keeps c k x h p)

  after_track-keeps :
      (q : Ended × Tracking c i all) → Tracks q.1 → Holds c k (after_track c i all q).1
  unfolding after_track
  after_track-keeps (goes_on, t) p = p
  after_track-keeps (stopped, t) p = awaits-keeps c k t.host p
  after_track-keeps (tracker_failed x, t) p =
      let q = awaits-keeps c k t.host p in pair-if-keeps c k _ _ _ q (fail_turn-keeps x _ _ q)

  turn-keeps : (a : Attempt) (b : ℕ) (h : Host c) → Holds c k h → Holds c k (turn c i all a b h).1
  unfolding turn begin_tracking
  turn-keeps spawn_fails b h p = fail_turn-keeps _ b h p
  turn-keeps has_no_stdout b h p = fail_turn-keeps _ b _ (awaits-keeps c k h p)
  turn-keeps (tracks es) b h p =
      after_track-keeps _ (track-keeps es (begin_tracking c i all b h) (does-keeps c k h _ _ p))

  next_turn-keeps :
      (rest : ℕ → Host c → Host c) (q : Option ℕ × Host c)
      → ((b : ℕ) (h : Host c) → Holds c k h → Holds c k (rest b h))
      → Holds c k q.1
      → Holds c k (next_turn c i all rest q)
  next_turn-keeps rest (none, h) keep p = p
  next_turn-keeps rest (some b, h) keep p = keep b h p

  -- Whatever every step of a task keeps, the whole loop keeps.
  pub run_turns-keeps :
      (turns : List Attempt) (b : ℕ) (h : Host c)
      → Holds c k h
      → Holds c k (run_turns c i all turns b h)
  unfolding run_turns
  run_turns-keeps [] b h p = p
  run_turns-keeps (a ∷ rest) b h p = if-keeps c k (is_stopping c h) _ _ p (
      next_turn-keeps (run_turns c i all rest) (turn c i all a b h) (run_turns-keeps rest)
        (turn-keeps a b h p))
