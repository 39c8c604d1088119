-- ===== src/Lifecycle/StopRuns.antt =====
-- What the outcomes of `stop` say of its run, from the first world to the last.
use quest_vd_wired.Common.{true, false, none, some, ◌≡◌}
use quest_vd_wired.Adb.Types.{AdbController}
use quest_vd_wired.Adb.Transactions as Adb
use quest_vd_wired.Adb.Transactions.{finish_control_stop}
use quest_vd_wired.Adb.Stops.{Stopped}
use quest_vd_wired.Lifecycle.Platform.{DaemonReply, stop_command, Platform}
use quest_vd_wired.Lifecycle.Reached.{OnHost}
use quest_vd_wired.Lifecycle.Stop.{
  Stop, verified, operation_active, not_verified, not_quiesced, quiesced, refused, daemon_remains,
  not_written,
}

module _ (c : AdbController) (p : Platform c.executor.World) where
  open c use {executor}

  abbrev pub Moved : executor.World → executor.World → Type 0
  Moved w v = OnHost c p w v

  -- No repair of the mappings can race with what is done from here on: the daemon was asked to stop
  -- and has said that its repairs are suppressed, or there is neither a daemon nor an active runtime.
  pub data Suppressed (before from : executor.World) : Type 0 where
    acknowledged :
        (r : DaemonReply)
        → p.admin_command stop_command before ≡ (some r, from)
        → r.repairs_suppressed ≡ true
        → Suppressed before from
    absent :
        (between : executor.World)
        → p.read_daemon_pid before ≡ (none, between)
        → p.runtime_may_be_active between ≡ (false, from)
        → Suppressed before from

  -- What is done on the headset: the end of a stop that Android acknowledged, the whole stop, or the
  -- one and then the other.
  pub data Transaction (from : executor.World) : executor.World → Type 0 where
    finished : Transaction from (finish_control_stop c from).1
    whole : Transaction from (Adb.stop c from).1
    both : Transaction from (Adb.stop c (finish_control_stop c from).1).1

  -- A command from its first world to its last, with one transaction between suppressed repairs and
  -- calls of the host.
  pub record Behind (first last : executor.World) : Type 0 where
    pub before : executor.World
    pub reached : Moved first before
    pub from : executor.World
    pub suppressed : Suppressed before from
    pub at : executor.World
    pub ran : Transaction from at
    pub left : Moved at last

  pub record Verified (first last : executor.World) : Type 0 where
    pub behind : Behind first last
    pub seen : Stopped c behind.at

  -- The outcomes behind a transaction on the headset, and those behind none.
  abbrev pub Tells : executor.World → Stop → executor.World → Type 0
  Tells first verified last = Verified first last
  Tells first (not_verified e) last = Behind first last
  Tells first daemon_remains last = Behind first last
  Tells first not_written last = Behind first last
  Tells first operation_active last = Moved first last
  Tells first not_quiesced last = Moved first last
  Tells first quiesced last = Moved first last
  Tells first refused last = Moved first last
