-- ===== src/Adb/Failures.antt =====
-- A start that fails leaves nothing behind that it did not try to remove.
use quest_vd_wired.Common.{
  ◌≡◌, refl, sym, ap, ◌∙◌, Bool, inl, inr, List, [], ◌∷◌, ◌++◌, ◌⊎◌, arith, append_assoc,
}
use quest_vd_wired.Protocol.Types.{SessionId}
use quest_vd_wired.Adb.Actions.{Result, ok, err, and_then, with_error, with_error-err}
use quest_vd_wired.Adb.Types.{
  AdbController, AdbError, Failure, Phase, TransactionError, StartReceipt, reverse_mappings,
  reverse_setup, reverse_verify, android_start, device_check, device_wake, start_quiesce,
  start_force_quiesce, single, plain, start_rollback, start_rollback_unverified,
}
use quest_vd_wired.Adb.Commands.{
  remove_all_mappings, verify_vpn_closed, run_checked, require_device, wake_android,
  send_start_intent, stop_args,
}
use quest_vd_wired.Adb.Transactions.{
  failures_of, fails_with, roll_back, clean_up, behind, stop_android_session,
  force_stop_android_session, quiesce_android_session, after_graceful, unless_failed, unless_unsent,
  add_until_failure, set_up_mappings, verify_mappings, take_back_start, start_service,
  start_receipt, prepare_start, establish, start,
}

-- The last thing that was done is the removal of all mappings, and the error names, last, every
-- failure of that removal.
pub record CleanedUp (c : AdbController) (e : TransactionError) (w : c.executor.World)
    : Type 0 where
  pub from : c.executor.World
  pub earlier : List Failure
  pub later : List Failure
  pub removed : remove_all_mappings c from ≡ (later, w)
  pub reported : e.failures ≡ earlier ++ later

module _ (c : AdbController) where
  open c use {executor}

  abbrev Answer : Type 0
  Answer = Result TransactionError (Unit {0}) × executor.World

  -- What an answer that is an error has done.
  abbrev CleanIfErr : Answer → Type 0
  CleanIfErr q = (e : TransactionError) → q.0 ≡ err e → CleanedUp c e q.1

  roll_back-CleanedUp :
      (phase : Phase) (failures : List Failure) (w : executor.World)
      → CleanIfErr (roll_back c phase failures w)
  unfolding roll_back
  roll_back-CleanedUp phase failures w e h = record {
    from = w;
    earlier = failures;
    later = _;
    removed = refl;
    reported = ground arith;
  }

  fails_with-err :
      (phase : Phase) (fs : List Failure) (e : TransactionError)
      → fails_with phase fs ≡ err e
      → e.failures ≡ fs
  fails_with-err phase [] e h = absurd (ground arith)
  fails_with-err phase (f ∷ fs) e h = ground arith

  clean_up-CleanedUp :
      (phase : Phase) (failures : List Failure) (w : executor.World)
      → CleanIfErr (clean_up c phase failures w)
  unfolding clean_up
  clean_up-CleanedUp phase failures w e h = record {
    from = w;
    earlier = failures;
    later = _;
    removed = refl;
    reported = fails_with-err phase _ e h;
  }

  force_stop-CleanedUp :
      (phase : Phase) (w : executor.World) → CleanIfErr (force_stop_android_session c phase w)
  unfolding force_stop_android_session
  force_stop-CleanedUp phase w e h = clean_up-CleanedUp phase _ _ e h

  graceful-CleanedUp : (q : Answer) → CleanIfErr (after_graceful c q)
  graceful-CleanedUp (ok _, w) e h = absurd (ground arith)
  graceful-CleanedUp (err graceful, w) e h =
      let (forced, a, b, d) =
        with_error-err (behind c graceful) (force_stop_android_session c start_force_quiesce w) e
          h in
      let k = force_stop-CleanedUp start_force_quiesce w forced a in
      record {
        from = k.from;
        earlier = graceful.failures ++ k.earlier;
        later = k.later;
        removed = k.removed ∙ ap (λ v. (k.later, v)) (sym d);
        reported =
            ap (λ (x : TransactionError). x.failures) b
            ∙ ap (λ fs. graceful.failures ++ fs) k.reported
            ∙ sym (append_assoc graceful.failures k.earlier k.later);
      }

  unless_failed-CleanedUp :
      (phase : Phase) (q : List Failure × executor.World) → CleanIfErr (unless_failed c phase q)
  unless_failed-CleanedUp phase ([], w) e h = absurd (ground arith)
  unless_failed-CleanedUp phase (f ∷ fs, w) e h = roll_back-CleanedUp phase (f ∷ fs) w e h

  unless_unsent-CleanedUp :
      (q : Result AdbError (Unit {0}) × executor.World) → CleanIfErr (unless_unsent c q)
  unfolding take_back_start
  unless_unsent-CleanedUp (ok _, w) e h = absurd (ground arith)
  unless_unsent-CleanedUp (err x, w) e h =
      let (rollback, w₁) = run_checked c stop_args w in
      let (closed, w₂) = verify_vpn_closed c w₁ in
      roll_back-CleanedUp android_start
        (plain x
          ∷ (failures_of start_rollback rollback ++ failures_of start_rollback_unverified closed))
        w₂ e h

  -- A chain of two cleans up if both do.
  chain-CleanedUp :
      (q : Answer) (f : executor.World → Answer)
      → CleanIfErr q
      → ((v : executor.World) → CleanIfErr (f v))
      → CleanIfErr (and_then q (λ _. f))
  chain-CleanedUp (ok _, w) f h k = k w
  chain-CleanedUp (err x, w) f h k = h

  establish-CleanedUp :
      (session_id : SessionId) (all_traffic : Bool) (w : executor.World)
      → CleanIfErr (establish c session_id all_traffic w)
  unfolding establish set_up_mappings verify_mappings start_service
  establish-CleanedUp session_id all_traffic w =
      chain-CleanedUp (set_up_mappings c w) _
        (unless_failed-CleanedUp reverse_setup (add_until_failure c reverse_mappings w))
        (λ v.
          chain-CleanedUp (verify_mappings c v) _ (unless_failed-CleanedUp reverse_verify _)
            (λ u. unless_unsent-CleanedUp (send_start_intent c session_id all_traffic u)))

  -- The start that fails at the world `first` has ended, at the world `last`, right behind the check of the
  -- device, or right behind this check and the command that wakes the headset: nothing else was sent.
  abbrev pub IsUntouched : executor.World → TransactionError → executor.World → Type 0
  IsUntouched first e last =
      (e.phase ≡ device_check × last ≡ (require_device c first).1)
      ⊎ (e.phase ≡ device_wake × last ≡ (wake_android c (require_device c first).1).1)

  abbrev CleanOrUntouched : executor.World → Answer → Type 0
  CleanOrUntouched first q =
      (e : TransactionError) → q.0 ≡ err e → IsUntouched first e q.1 ⊎ CleanedUp c e q.1

  -- A command at the world `v`, and what follows behind it.
  single-Untouched :
      (phase : Phase) (first : executor.World) (q : Result AdbError (Unit {0}) × executor.World)
      (f : executor.World → Answer)
      → ((e : TransactionError) → e.phase ≡ phase → IsUntouched first e q.1)
      → CleanOrUntouched first (f q.1)
      → CleanOrUntouched first (and_then (with_error (single phase) q) (λ _. f))
  single-Untouched phase first (ok _, w) f p k = k
  single-Untouched phase first (err x, w) f p k = λ e h. inl (p e (ground arith))

  prepare-CleanedUp : (w : executor.World) → CleanOrUntouched w (prepare_start c w)
  unfolding prepare_start quiesce_android_session
  prepare-CleanedUp w =
      let (_, v) = require_device c w in
      single-Untouched device_check w (require_device c w) _ (λ e p. inl (p, refl))
        (single-Untouched device_wake w (wake_android c v) _ (λ e p. inr (p, refl))
          (λ e h. inr (graceful-CleanedUp (stop_android_session c start_quiesce _) e h)))

  with_receipt-CleanedUp :
      (q : Answer) (receipt : StartReceipt) (e : TransactionError)
      → CleanIfErr q
      → (and_then q (λ _ v. (ok receipt, v))).0 ≡ err e
      → CleanedUp c e (and_then q (λ _ v. (ok receipt, v))).1
  with_receipt-CleanedUp (ok _, w) receipt e h k = absurd (ground arith)
  with_receipt-CleanedUp (err x, w) receipt e h k = h e (ap err (ground arith))

  behind-CleanedUp :
      (first : executor.World) (q : Answer) (f : executor.World → Answer) (receipt : StartReceipt)
      (e : TransactionError)
      → CleanOrUntouched first q
      → ((v : executor.World) → CleanIfErr (f v))
      → (and_then q (λ _ v. and_then (f v) (λ _ u. (ok receipt, u)))).0 ≡ err e
      → IsUntouched first e (and_then q (λ _ v. and_then (f v) (λ _ u. (ok receipt, u)))).1
        ⊎ CleanedUp c e (and_then q (λ _ v. and_then (f v) (λ _ u. (ok receipt, u)))).1
  behind-CleanedUp first (ok _, w) f receipt e h k g =
      inr (with_receipt-CleanedUp (f w) receipt e (k w) g)
  behind-CleanedUp first (err x, w) f receipt e h k g = h e (ap err (ground arith))

  -- A start that fails has ended right behind a device check that failed, or right behind this check and a
  -- wake-up that failed, with nothing else sent to the headset; or its last act was to remove all of
  -- the product's mappings, and its error ends with every failure of that removal.
  pub start-CleanedUp :
      (session_id : SessionId) (all_traffic : Bool) (w : executor.World) (e : TransactionError)
      → (start c session_id all_traffic w).0 ≡ err e
      → IsUntouched w e (start c session_id all_traffic w).1
        ⊎ CleanedUp c e (start c session_id all_traffic w).1
  unfolding start
  start-CleanedUp session_id all_traffic w e h =
      behind-CleanedUp w (prepare_start c w) (establish c session_id all_traffic)
        (start_receipt c session_id all_traffic) e (prepare-CleanedUp w)
        (establish-CleanedUp session_id all_traffic) h
