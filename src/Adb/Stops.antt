-- ===== src/Adb/Stops.antt =====
-- A stop that reports success.
use quest_vd_wired.Common.{◌≡◌, refl, subst, sym, ap, ◌∙◌, List, [], ◌∷◌, ◌++◌, arith}
use quest_vd_wired.Adb.Actions.{Result, ok, err, map_err, and_then-ok}
use quest_vd_wired.Adb.Types.{
  AdbController, AdbOutput, AdbError, Failure, Phase, TransactionError, stop_phase, stop_request,
  unresponsive_stop, control_stop, vpn_closure, force_stop, device_wake, single,
}
use quest_vd_wired.Adb.Commands.{
  Does, remove_all_mappings, verify_vpn_closed, run_checked, require_device, wake_android,
  force_stop_android, stop_args,
}
use quest_vd_wired.Adb.Transactions.{
  failures_of, fails_with, clean_up, stop_failures, stop_android_session,
  force_stop_android_session, stop, stop_unresponsive, finish_control_stop,
}
use quest_vd_wired.Adb.Verified.{
  SawClosed, SawNoMapping, verify-SawClosed, remove-SawNoMapping, append_empty,
}

-- The world right after a stop: first the VPN was seen closed, and last of all no mapping was listed.
pub record Stopped (c : AdbController) (w : c.executor.World) : Type 0 where
  pub closed_at : c.executor.World
  pub saw_closed : SawClosed c closed_at
  pub removed : remove_all_mappings c closed_at ≡ ([], w)
  pub saw_no_mapping : SawNoMapping c w

module _ (c : AdbController) where
  open c use {executor}

  fails_with-ok : (phase : Phase) (fs : List Failure) → fails_with phase fs ≡ ok tt → fs ≡ []
  fails_with-ok phase [] h = refl
  fails_with-ok phase (f ∷ fs) h = absurd (ground arith)

  empty_parts : {A : Type 0} (xs ys : List A) → xs ++ ys ≡ [] → (xs ≡ []) × (ys ≡ [])
  empty_parts [] ys h = (refl, h)
  empty_parts (x ∷ xs) ys h = absurd (ground arith)

  failures_of-ok :
      {A : Type 0} (f : AdbError → Failure) (r : Result AdbError A)
      → failures_of f r ≡ []
      → (a : A) × (r ≡ ok a)
  failures_of-ok f (ok a) h = (a, refl)
  failures_of-ok f (err e) h = absurd (ground arith)

  -- A clean-up that succeeds, behind a verification that did.
  clean_up-Stopped :
      (phase : Phase) (failures : List Failure) (w : executor.World)
      → (clean_up c phase failures w).0 ≡ ok tt
      → (failures ≡ [] → SawClosed c w)
      → Stopped c (clean_up c phase failures w).1
  unfolding clean_up
  clean_up-Stopped phase failures w h seen =
      let (more, w₁) = remove_all_mappings c w in
      let (none_before, none_after) = empty_parts failures more (fails_with-ok phase _ h) in
      record {
        closed_at = w;
        saw_closed = seen none_before;
        removed = ap (λ (fs : List Failure). (fs, w₁)) none_after;
        saw_no_mapping = remove-SawNoMapping c w none_after;
      }

  closed_ok : (r : Result AdbError (Unit {0})) → failures_of vpn_closure r ≡ [] → r ≡ ok tt
  closed_ok (ok _) h = refl
  closed_ok (err e) h = absurd (ground arith)

  stop_failures-ok :
      (request : Result AdbError AdbOutput) (r : Result AdbError (Unit {0}))
      → stop_failures c request r ≡ []
      → r ≡ ok tt
  stop_failures-ok request (ok _) h = refl
  stop_failures-ok request (err e) h =
      absurd (let q = append_empty (failures_of stop_request request) _ h in ground arith)

  pub session-Stopped :
      (phase : Phase) (w : executor.World)
      → (stop_android_session c phase w).0 ≡ ok tt
      → Stopped c (stop_android_session c phase w).1
  unfolding stop_android_session
  session-Stopped phase w h =
      let (request, w₁) = run_checked c stop_args w in
      let (closed, w₂) = verify_vpn_closed c w₁ in
      clean_up-Stopped phase (stop_failures c request closed) w₂ h
        (λ e. verify-SawClosed c w₁ (stop_failures-ok request closed e))

  pub force_stop-Stopped :
      (phase : Phase) (w : executor.World)
      → (force_stop_android_session c phase w).0 ≡ ok tt
      → Stopped c (force_stop_android_session c phase w).1
  unfolding force_stop_android_session
  force_stop-Stopped phase w h =
      let (stopped, w₁) = force_stop_android c w in
      let (closed, w₂) = verify_vpn_closed c w₁ in
      clean_up-Stopped phase (failures_of force_stop stopped ++ failures_of vpn_closure closed) w₂ h
        (λ e.
          verify-SawClosed c w₁
            (closed_ok closed (append_empty (failures_of force_stop stopped) _ e)))

  finish-Stopped :
      (w : executor.World)
      → (finish_control_stop c w).0 ≡ ok tt
      → Stopped c (finish_control_stop c w).1
  unfolding finish_control_stop
  finish-Stopped w h =
      let (closed, w₁) = verify_vpn_closed c w in
      clean_up-Stopped control_stop (failures_of vpn_closure closed) w₁ h
        (λ e. verify-SawClosed c w (closed_ok closed e))

-- The three ways to end a session.
pub data Ending : Type 0 where
  stops stops_unresponsive finishes : Ending

unfoldable pub end_session : (c : AdbController) → Ending → Does c TransactionError (Unit {0})
unfolding stop stop_unresponsive finish_control_stop
end_session c stops = stop c
end_session c stops_unresponsive = stop_unresponsive c
end_session c finishes = finish_control_stop c

-- Whichever way a session is ended, if the call reports success, then a dumpsys showed the VPN closed,
-- after it every product mapping was removed without a failure, and the last command of all was a
-- listing that shows no mapping of the product.
pub end_session-Stopped :
    (c : AdbController) (ending : Ending) (w : c.executor.World)
    → (end_session c ending w).0 ≡ ok tt
    → Stopped c (end_session c ending w).1
unfolding end_session
end_session-Stopped c finishes w h = finish-Stopped c w h
end_session-Stopped c stops_unresponsive w h =
    let (_, _, h₁, e₁) =
      and_then-ok (map_err (single unresponsive_stop) (require_device c) w) _ tt h in
    subst (λ q. Stopped c q.1) (sym e₁) (force_stop-Stopped c unresponsive_stop _ h₁)
end_session-Stopped c stops w h =
    let (_, _, h₁, e₁) = and_then-ok (map_err (single stop_phase) (require_device c) w) _ tt h in
    let (_, _, h₂, e₂) = and_then-ok (map_err (single device_wake) (wake_android c) _) _ tt h₁ in
    subst (λ q. Stopped c q.1) (sym (e₁ ∙ e₂)) (session-Stopped c stop_phase _ h₂)
