-- ===== src/Lifecycle/StartRuns.antt =====
-- What the outcomes of `start` say of its run, from the first world to the last.
use quest_vd_wired.Common.{Bool, true, false, ◌≡◌, ◌⊎◌}
use quest_vd_wired.Protocol.Types.{SessionId}
use quest_vd_wired.Adb.Actions.{Result, ok, err}
use quest_vd_wired.Adb.Types.{AdbController, TransactionError}
use quest_vd_wired.Adb.Transactions as Adb
use quest_vd_wired.Adb.Transactions.{stop_unresponsive, install_matching_apk}
use quest_vd_wired.Adb.Stops.{Stopped}
use quest_vd_wired.Adb.Starts as Starts
use quest_vd_wired.Adb.Failures.{CleanedUp, IsUntouched}
use quest_vd_wired.Lifecycle.Platform.{Platform}
use quest_vd_wired.Lifecycle.Reached.{OnHost}
use quest_vd_wired.Lifecycle.Start.{
  Started, linked, operation_active, runtime_active, not_materialized, not_spawned, not_ready,
  already_running, not_installed, not_started, not_quiesced, rolled_back, not_rolled_back,
  wait_for_connected,
}

module _ (c : AdbController) (p : Platform c.executor.World) (all_traffic : Bool) where
  open c use {executor}

  abbrev pub Moved : executor.World → executor.World → Type 0
  Moved w v = OnHost c p w v

  -- The app was installed, and apart from that only the host was asked.
  pub record Prepared (first last : executor.World) : Type 0 where
    pub before : executor.World
    pub reached : Moved first before
    pub at : executor.World
    pub installed : install_matching_apk c p.apk_path before ≡ (ok tt, at)
    pub left : Moved at last

  pub record NotInstalled (first last : executor.World) (e : TransactionError) : Type 0 where
    pub before : executor.World
    pub reached : Moved first before
    pub refused : install_matching_apk c p.apk_path before ≡ (err e, last)

  -- The session was started on the headset, and the wait for its connection ended with this answer.
  pub record Waited (first : executor.World) (session : SessionId) (answered : Bool)
      (last : executor.World) : Type 0 where
    pub from : executor.World
    pub prepared : Prepared first from
    pub at : executor.World
    pub ran : at ≡ (Adb.start c session all_traffic from).1
    pub started : Starts.Started c session all_traffic at
    pub answer : wait_for_connected session (p.connected_polls at).0 ≡ answered
    pub polled : last ≡ (p.connected_polls at).1

  -- The headset did not answer, the daemon was taken back, and then the stop of the session gave this
  -- result.
  pub record Unanswered (first : executor.World) (result : Result TransactionError (Unit {0}))
      (last : executor.World) : Type 0 where
    pub session : SessionId
    pub waited_at : executor.World
    pub waited : Waited first session false waited_at
    pub quiet : (p.terminate_spawned_daemon waited_at).0 ≡ true
    pub stop_ran : stop_unresponsive c (p.terminate_spawned_daemon waited_at).1 ≡ (result, last)

  pub record RolledBack (first last : executor.World) : Type 0 where
    pub at : executor.World
    pub unanswered : Unanswered first (ok tt) at
    pub seen : Stopped c at
    pub left : Moved at last

  pub record NotRolledBack (first last : executor.World) (e : TransactionError) : Type 0 where
    pub at : executor.World
    pub unanswered : Unanswered first (err e) at
    pub left : Moved at last

  pub record NotQuiesced (first last : executor.World) : Type 0 where
    pub session : SessionId
    pub at : executor.World
    pub waited : Waited first session false at
    pub remains : p.terminate_spawned_daemon at ≡ (false, last)

  -- The start on the headset failed: it has touched nothing there, or has cleaned up.
  pub record NotStarted (first last : executor.World) (e : TransactionError) : Type 0 where
    pub session : SessionId
    pub from : executor.World
    pub prepared : Prepared first from
    pub at : executor.World
    pub ran : Adb.start c session all_traffic from ≡ (err e, at)
    pub cleaned : IsUntouched c from e at ⊎ CleanedUp c e at
    pub left : Moved at last

  abbrev pub Tells : executor.World → Started → executor.World → Type 0
  Tells first (linked session pid) last = Waited first session true last
  Tells first operation_active last = Moved first last
  Tells first runtime_active last = Moved first last
  Tells first not_materialized last = Moved first last
  Tells first (already_running pid) last = Moved first last
  Tells first not_spawned last = Prepared first last
  Tells first not_ready last = Prepared first last
  Tells first (not_installed e) last = NotInstalled first last e
  Tells first (not_started e) last = NotStarted first last e
  Tells first not_quiesced last = NotQuiesced first last
  Tells first rolled_back last = RolledBack first last
  Tells first (not_rolled_back e) last = NotRolledBack first last e
