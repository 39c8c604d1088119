-- ===== src/Lifecycle/Outcomes.antt =====
-- What the outcomes of `start` tell of the headset.
use quest_vd_wired.Common.{
  ℕ, Bool, true, false, not, if◌then◌else◌, Option, none, some, ◌≡◌, refl, sym, ap, subst, ◌⊎◌,
}
use quest_vd_wired.Protocol.Types.{SessionId}
use quest_vd_wired.Adb.Actions.{Result, ok, err}
use quest_vd_wired.Adb.Types.{AdbController, TransactionError, StartReceipt}
use quest_vd_wired.Adb.Transactions as Adb
use quest_vd_wired.Adb.Transactions.{stop_unresponsive, install_matching_apk}
use quest_vd_wired.Adb.Stops.{Stopped, end_session, stops_unresponsive, end_session-Stopped}
use quest_vd_wired.Adb.Starts as Starts
use quest_vd_wired.Adb.Starts.{start-Started}
use quest_vd_wired.Adb.Failures.{CleanedUp, IsUntouched, start-CleanedUp}
use quest_vd_wired.Lifecycle.Platform.{Platform}
use quest_vd_wired.Lifecycle.Reached.{
  OnHost, unmoved, acquired, read_pid, asked_process, asked_runtime, materialized, drew_session,
  spawned, awaited_ready, took_back, wrote,
}
use quest_vd_wired.Lifecycle.StartRuns.{Prepared, Waited, Unanswered, Tells}
use quest_vd_wired.Lifecycle.Start.{
  Started, operation_active, runtime_active, not_materialized, already_running, not_quiesced,
  conclude_rollback, roll_back, await_connected, after_start, await_ready, unless_unspawned,
  after_install, install_and_start, unless_active, unless_identified, start, wait_for_connected,
  wait_for_runtime_ready,
}

module _ (c : AdbController) (p : Platform c.executor.World) (all_traffic : Bool) where
  open c use {executor}

  record Ends (first : executor.World) (q : Started × executor.World) : Type 0 where
    told : Tells c p all_traffic first q.0 q.1

  -- A branch of the code, with its test at hand.
  if-Ends :
      {first : executor.World} (b : Bool) (x y : Started × executor.World)
      → (b ≡ true → Ends first x)
      → (b ≡ false → Ends first y)
      → Ends first (if b then x else y)
  if-Ends true x y g h = g refl
  if-Ends false x y g h = h refl

  conclude_rollback-Ends :
      {first : executor.World} (session : SessionId)
      (q : Result TransactionError (Unit {0}) × executor.World)
      → Unanswered c p all_traffic first q.0 q.1
      → (q.0 ≡ ok tt → Stopped c q.1)
      → Ends first (conclude_rollback c p session q)
  unfolding conclude_rollback
  conclude_rollback-Ends session (ok _, w) u h = record {
    told = record { at = w; unanswered = u; seen = h refl; left = wrote _ unmoved };
  }
  conclude_rollback-Ends session (err e, w) u h = record {
    told = record { at = w; unanswered = u; left = wrote _ unmoved };
  }

  roll_back-Ends :
      {first : executor.World} (session : SessionId) (w : executor.World)
      → Waited c p all_traffic first session false w
      → Ends first (roll_back c p session w)
  unfolding roll_back end_session
  roll_back-Ends {first} session w waited = taken_back-Ends (p.terminate_spawned_daemon w) refl
    where
      taken_back-Ends :
          (q : Bool × executor.World)
          → p.terminate_spawned_daemon w ≡ q
          → Ends first (
              if not q.0
              then (not_quiesced, q.1)
              else conclude_rollback c p session (stop_unresponsive c q.1))
      taken_back-Ends (false, v) e = record {
        told = record { session = session; at = w; waited = waited; remains = e };
      }
      taken_back-Ends (true, v) e =
          conclude_rollback-Ends session (stop_unresponsive c v)
            (record {
              session = session;
              waited_at = w;
              waited = waited;
              quiet = ap (λ x. x.0) e;
              stop_ran = ap (λ x. stop_unresponsive c x.1) e;
            })
            (end_session-Stopped c stops_unresponsive v)

  after_start-Ends :
      {first : executor.World} (session : SessionId) (pid : ℕ) (from : executor.World)
      (q : Result TransactionError StartReceipt × executor.World)
      → Prepared c p all_traffic first from
      → Adb.start c session all_traffic from ≡ q
      → Ends first (after_start c p session pid q)
  unfolding after_start await_connected
  after_start-Ends {first} session pid from (ok receipt, w) prepared e =
      let ran = sym (ap (λ x. x.1) e) in
      let started =
        subst (Starts.Started c session all_traffic) (ap (λ x. x.1) e)
          (start-Started c session all_traffic from receipt (ap (λ x. x.0) e)).0 in
      let waited : (b : Bool)
          → wait_for_connected session (p.connected_polls w).0 ≡ b
          → Waited c p all_traffic first session b (p.connected_polls w).1 =
        λ b h. record {
          from = from;
          prepared = prepared;
          at = w;
          ran = ran;
          started = started;
          answer = h;
          polled = refl;
        } in
      if-Ends (wait_for_connected session (p.connected_polls w).0) _ _
        (λ h. record { told = waited true h })
        (λ h. roll_back-Ends session (p.connected_polls w).1 (waited false h))
  after_start-Ends session pid from (err x, w) prepared e = record {
    told = record {
      session = session;
      from = from;
      prepared = prepared;
      at = w;
      ran = e;
      cleaned =
          subst (λ v. IsUntouched c from x v ⊎ CleanedUp c x v) (ap (λ y. y.1) e)
            (start-CleanedUp c session all_traffic from x (ap (λ y. y.0) e));
      left = wrote _ (took_back unmoved);
    };
  }

  -- More calls of the host behind the installation.
  abbrev move_on :
      {first v last : executor.World} (r : Prepared c p all_traffic first v)
      → OnHost c p r.at last
      → Prepared c p all_traffic first last
  move_on r m = record {
    before = r.before;
    reached = r.reached;
    at = r.at;
    installed = r.installed;
    left = m;
  }

  await_ready-Ends :
      {first : executor.World} (session : SessionId) (pid : ℕ) (w : executor.World)
      → Prepared c p all_traffic first w
      → Ends first (await_ready c p session all_traffic pid w)
  unfolding await_ready
  await_ready-Ends session pid w r =
      let w₁ = (p.ready_polls pid w).1 in
      let m = awaited_ready pid r.left in
      if-Ends (wait_for_runtime_ready (p.ready_polls pid w).0) _ _
        (λ _.
          after_start-Ends session pid w₁ (Adb.start c session all_traffic w₁) (move_on r m) refl)
        (λ _. record { told = move_on r (took_back m) })

  spawned-Ends :
      {first : executor.World} (session : SessionId) (q : Option ℕ × executor.World)
      → Prepared c p all_traffic first q.1
      → Ends first (unless_unspawned c p session all_traffic q)
  spawned-Ends session (none, w) r = record { told = r }
  spawned-Ends session (some pid, w) r = await_ready-Ends session pid w r

  installed-Ends :
      {first : executor.World} (before : executor.World)
      (q : Result TransactionError (Unit {0}) × executor.World)
      → OnHost c p first before
      → install_matching_apk c p.apk_path before ≡ q
      → Ends first (after_install c p all_traffic q)
  installed-Ends before (err e, w) m h = record {
    told = record { before = before; reached = m; refused = h };
  }
  installed-Ends before (ok _, w) m h =
      let (session, w₁) = p.random_session w in
      spawned-Ends session (p.spawn_daemon session all_traffic w₁) (record {
        before = before;
        reached = m;
        at = w;
        installed = h;
        left = spawned session all_traffic (drew_session unmoved);
      })

  active-Ends :
      {first : executor.World} (w : executor.World)
      → OnHost c p first w
      → Ends first (unless_active c p all_traffic w)
  unfolding unless_active install_and_start
  active-Ends w m =
      let (active, w₁) = p.runtime_may_be_active w in
      let (written, w₂) = p.materialize_apk w₁ in
      let m₁ = asked_runtime m in
      let m₂ = materialized m₁ in
      if-Ends active (runtime_active, w₁) (install_and_start c p all_traffic w₁)
        (λ _. record { told = m₁ })
        (λ _.
          if-Ends (not written) (not_materialized, w₂) _ (λ _. record { told = m₂ })
            (λ _. installed-Ends w₂ (install_matching_apk c p.apk_path w₂) m₂ refl))

  identified-Ends :
      {first : executor.World} (q : Option ℕ × executor.World)
      → OnHost c p first q.1
      → Ends first (unless_identified c p all_traffic q)
  identified-Ends (none, w) m = active-Ends w m
  identified-Ends (some pid, w) m =
      if-Ends (p.process_is_running pid w).0 (already_running pid, (p.process_is_running pid w).1) _
        (λ _. record { told = asked_process pid m }) (λ _. active-Ends _ (asked_process pid m))

  -- What each outcome of a start tells of the run from its first world to its last. Linked: the app was
  -- installed, an earlier session was seen closed, the mappings were added and listed, the intent of
  -- this very session and routing was sent, and behind that the wait saw the session connected. Rolled
  -- back: all this, but the wait saw no connection; the daemon was taken back, and then the session was
  -- stopped with the VPN seen closed and no mapping of the product listed, with calls of the host alone
  -- behind that. Not rolled back, or not quiesced: so too, but the stop has failed, or the
  -- daemon could not be taken back. Not started: the start on the headset has failed with this error,
  -- and has sent no more than the check and the wake-up, or has removed all mappings as its last act.
  -- Not spawned or not ready: the app was installed and nothing else was asked of adb. Not installed:
  -- the installation has failed with this error. In every other case adb was asked nothing.
  pub start-Tells :
      (w : executor.World)
      → Tells c p all_traffic w (start c p all_traffic w).0 (start c p all_traffic w).1
  unfolding start
  start-Tells w =
      let (acquired?, w₁) = p.acquire_operation w in
      (if-Ends (not acquired?) (operation_active, w₁) _ (λ _. record { told = acquired unmoved })
        (λ _. identified-Ends (p.read_daemon_pid w₁) (read_pid (acquired unmoved)))).told
