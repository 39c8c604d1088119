-- ===== src/Lifecycle/Suppressed.antt =====
-- When `stop` touches the headset, and what its outcomes tell.
use quest_vd_wired.Common.{
  ℕ, Bool, true, false, not, if◌then◌else◌, Option, none, some, ◌≡◌, refl, sym, ap, subst,
}
use quest_vd_wired.Adb.Actions.{Result, ok, err}
use quest_vd_wired.Adb.Types.{AdbController, TransactionError}
use quest_vd_wired.Adb.Transactions as Adb
use quest_vd_wired.Adb.Transactions.{finish_control_stop}
use quest_vd_wired.Adb.Stops.{Stopped, end_session, stops, finishes, end_session-Stopped}
use quest_vd_wired.Lifecycle.Platform.{DaemonReply, stop_command, shutdown_command, Platform}
use quest_vd_wired.Lifecycle.Reached.{
  OnHost, unmoved, acquired, read_pid, asked_runtime, commanded, terminated, awaited_exit,
  removed_pid, wrote, drained, if-OnHost,
}
use quest_vd_wired.Lifecycle.StopRuns.{
  Suppressed, acknowledged, absent, Transaction, finished, whole, both, Behind, Tells,
}
use quest_vd_wired.Lifecycle.Stop.{
  Stop, verified, operation_active, not_verified, not_quiesced, quiesced, daemon_remains,
  not_written, admin_stop_acknowledges_suppression, stopped_snapshot, unverified_snapshot, or_stop,
  is_accepted, is_ok, after_exit, shut_down, end_daemon, report, unless_remains, conclude_stop,
  quiesce, unless_active, stop_unproven, after_answer, stop,
}

module _ (c : AdbController) (p : Platform c.executor.World) where
  open c use {executor}

  record Ends (first : executor.World) (q : Stop × executor.World) : Type 0 where
    told : Tells c p first q.0 q.1

  if-Ends :
      {first : executor.World} (b : Bool) (x y : Stop × executor.World)
      → Ends first x
      → Ends first y
      → Ends first (if b then x else y)
  if-Ends true x y g h = g
  if-Ends false x y g h = h

  -- The worlds up to the end of the transaction.
  record Done (first at : executor.World) : Type 0 where
    before : executor.World
    reached : OnHost c p first before
    from : executor.World
    suppressed : Suppressed c p before from
    ran : Transaction c p from at

  leave :
      {first at last : executor.World} → Done first at → OnHost c p at last → Behind c p first last
  leave {at} d m = record {
    before = d.before;
    reached = d.reached;
    from = d.from;
    suppressed = d.suppressed;
    at = at;
    ran = d.ran;
    left = m;
  }

  written-Ends :
      {first : executor.World} (b : Bool) (x : Stop) (w : executor.World)
      → Behind c p first w
      → Tells c p first x w
      → Ends first (if b then x else not_written, w)
  written-Ends true x w s h = record { told = h }
  written-Ends false x w s h = record { told = s }

  report-Ends :
      {first : executor.World} (r : Result TransactionError (Unit {0})) (w at : executor.World)
      → Done first at
      → OnHost c p at w
      → (r ≡ ok tt → Stopped c at)
      → Ends first (report c p r w)
  unfolding leave
  report-Ends (ok _) w at d m h =
      let b = leave d (wrote stopped_snapshot m) in
      written-Ends (p.write_status stopped_snapshot w).0 verified _ b
        (record { behind = b; seen = h refl })
  report-Ends (err e) w at d m h =
      let b = leave d (wrote unverified_snapshot m) in
      written-Ends (p.write_status unverified_snapshot w).0 (not_verified e) _ b b

  after_exit-Moved :
      {at : executor.World} (q : Bool × executor.World)
      → OnHost c p at q.1
      → OnHost c p at (after_exit c p q).1
  unfolding after_exit
  after_exit-Moved (true, w) m = m
  after_exit-Moved (false, w) m = terminated m

  end_daemon-Moved :
      {at : executor.World} (r : Result TransactionError (Unit {0})) (q : Option ℕ × executor.World)
      → OnHost c p at q.1
      → OnHost c p at (end_daemon c p r q).1
  unfolding end_daemon shut_down
  end_daemon-Moved r (none, w) m = m
  end_daemon-Moved {at} r (some pid, w) m =
      let (reply, w₁) = p.admin_command shutdown_command w in
      let m₁ = commanded shutdown_command m in
      if-OnHost c p at (is_ok c p r) _ _
        (if-OnHost c p at (is_accepted c p reply) _ _
          (after_exit-Moved (p.wait_for_daemon_exit w₁) (awaited_exit m₁)) (terminated m₁))
        (terminated m)

  remains-Ends :
      {first : executor.World} (r : Result TransactionError (Unit {0})) (q : Bool × executor.World)
      (at : executor.World)
      → Done first at
      → OnHost c p at q.1
      → (r ≡ ok tt → Stopped c at)
      → Ends first (unless_remains c p r q)
  remains-Ends r (ended, w) at d m h =
      if-Ends ended (report c p r (p.remove_daemon_pid w)) (daemon_remains, w)
        (report-Ends r _ at d (removed_pid m) h) (record { told = leave d m })

  conclude-Ends :
      {first : executor.World} (q : Result TransactionError (Unit {0}) × executor.World)
      → Done first q.1
      → (q.0 ≡ ok tt → Stopped c q.1)
      → Ends first (conclude_stop c p q)
  unfolding conclude_stop
  conclude-Ends (r, w) d h =
      remains-Ends r (end_daemon c p r (p.read_daemon_pid w)) w d
        (end_daemon-Moved r (p.read_daemon_pid w) (read_pid unmoved)) h

  torn_down-Ends :
      {first before : executor.World} (from w : executor.World)
      → OnHost c p first before
      → Suppressed c p before from
      → Transaction c p from (Adb.stop c w).1
      → Ends first (conclude_stop c p (Adb.stop c w))
  unfolding end_session
  torn_down-Ends {before} from w m s t =
      conclude-Ends (Adb.stop c w)
        (record { before = before; reached = m; from = from; suppressed = s; ran = t })
        (end_session-Stopped c stops w)

  or_stop-Ends :
      {first before : executor.World} (from : executor.World)
      (q : Result TransactionError (Unit {0}) × executor.World)
      → OnHost c p first before
      → Suppressed c p before from
      → q ≡ finish_control_stop c from
      → (q.0 ≡ ok tt → Stopped c q.1)
      → Ends first (conclude_stop c p (or_stop c p q))
  or_stop-Ends {before} from (ok _, w) m s e h =
      conclude-Ends (ok tt, w)
        (record {
          before = before;
          reached = m;
          from = from;
          suppressed = s;
          ran = subst (Transaction c p from) (ap (λ q. q.1) (sym e)) finished;
        })
        h
  or_stop-Ends from (err x, w) m s e h =
      torn_down-Ends from w m s
        (subst (λ v. Transaction c p from (Adb.stop c v).1) (ap (λ q. q.1) (sym e)) both)

  quiesce-Ends :
      {first : executor.World} (w : executor.World)
      → OnHost c p first w
      → Ends first (quiesce c p w)
  unfolding quiesce
  quiesce-Ends w m =
      let (ended, w₁) = p.terminate_daemon w in
      if-Ends (not ended) (not_quiesced, w₁)
        (quiesced, p.drain_mapping_command (p.remove_daemon_pid w₁))
        (record { told = terminated m }) (record { told = drained (removed_pid (terminated m)) })

  active-Ends :
      {first : executor.World} (before between : executor.World) (q : Bool × executor.World)
      → OnHost c p first before
      → p.read_daemon_pid before ≡ (none, between)
      → p.runtime_may_be_active between ≡ q
      → Ends first (unless_active c p q)
  unfolding unless_active
  active-Ends before between (true, w) m e f = record {
    told =
        subst (OnHost c p _) (ap (λ q. q.1) f)
          (asked_runtime (subst (OnHost c p _) (ap (λ q. q.1) e) (read_pid m)));
  }
  active-Ends before between (false, w) m e f = torn_down-Ends w w m (absent between e f) whole

  unproven-Ends :
      {first : executor.World} (before : executor.World) (q : Option ℕ × executor.World)
      → OnHost c p first before
      → p.read_daemon_pid before ≡ q
      → Ends first (stop_unproven c p q)
  unfolding stop_unproven
  unproven-Ends before (some pid, w) m e =
      quiesce-Ends w (subst (OnHost c p _) (ap (λ q. q.1) e) (read_pid m))
  unproven-Ends before (none, w) m e = active-Ends before w (p.runtime_may_be_active w) m e refl

  replied-Ends :
      {first : executor.World} (before w : executor.World) (r : DaemonReply) (ok? suppressed : Bool)
      → OnHost c p first before
      → p.admin_command stop_command before ≡ (some r, w)
      → r.accepted ≡ ok?
      → r.repairs_suppressed ≡ suppressed
      → OnHost c p first w
      → Ends first (after_answer c p (some r, w))
  unfolding after_answer admin_stop_acknowledges_suppression end_session
  replied-Ends before w r true true m e f g n =
      rw (f, g)
        (or_stop-Ends w (finish_control_stop c w) m (acknowledged r e g) refl
          (end_session-Stopped c finishes w))
  replied-Ends before w r false true m e f g n =
      rw (f, g) (torn_down-Ends w w m (acknowledged r e g) whole)
  replied-Ends before w r true false m e f g n = rw (f, g) (unproven-Ends w _ n refl)
  replied-Ends before w r false false m e f g n = rw (f, g) (unproven-Ends w _ n refl)

  after_answer-Ends :
      {first : executor.World} (before : executor.World) (q : Option DaemonReply × executor.World)
      → OnHost c p first before
      → p.admin_command stop_command before ≡ q
      → OnHost c p first q.1
      → Ends first (after_answer c p q)
  unfolding after_answer
  after_answer-Ends before (none, w) m e n = unproven-Ends w _ n refl
  after_answer-Ends before (some r, w) m e n =
      replied-Ends before w r r.accepted r.repairs_suppressed m e refl refl n

  -- Whatever the daemon answers and whatever fails: a `stop` that says it is quiesced, not quiesced,
  -- refused or kept out by another operation has asked adb nothing at all. Each other outcome has a
  -- transaction on the headset between calls of the host alone, and right before it the daemon said
  -- that its repairs are suppressed, or neither a daemon nor an active runtime was there. If it reports
  -- a verified stop, that transaction saw the VPN closed, and ended with a listing that showed no
  -- mapping of the product.
  pub stop-Tells : (w : executor.World) → Tells c p w (stop c p w).0 (stop c p w).1
  unfolding stop
  stop-Tells w =
      let (acquired?, w₁) = p.acquire_operation w in
      let q = p.admin_command stop_command w₁ in
      (if-Ends (not acquired?) (operation_active, w₁) (after_answer c p q)
        (record { told = acquired unmoved })
        (after_answer-Ends w₁ q (acquired unmoved) refl
          (commanded stop_command (acquired unmoved)))).told
