-- ===== src/Adb/Starts.antt =====
-- A start that reports success, and one that fails.
use quest_vd_wired.Common.{◌≡◌, refl, subst, sym, ap, ◌∙◌, Bool, List, [], ◌∷◌, arith}
use mathlib.Core.Path.{ap₂}
use quest_vd_wired.Protocol.Types.{SessionId}
use quest_vd_wired.Adb.Actions.{Result, ok, err, ok-injective, map_err, and_then-ok, with_error-ok}
use quest_vd_wired.Adb.Types.{
  AdbController, AdbError, ReverseMapping, Failure, Phase, MappingHealth, TransactionError,
  StartReceipt, reverse_mappings, reverse_setup, reverse_verify, device_check, device_wake,
  start_quiesce, start_force_quiesce, single, missing_after_add,
}
use quest_vd_wired.Adb.Commands.{require_device, wake_android, mapping_health, send_start_intent}
use quest_vd_wired.Adb.Transactions.{
  health_failures, roll_back, behind, stop_android_session, force_stop_android_session,
  quiesce_android_session, after_graceful, unless_failed, unless_unsent, add_until_failure,
  set_up_mappings, verify_mappings, take_back_start, start_service, start_receipt, prepare_start,
  establish, start,
}
use quest_vd_wired.Adb.Stops.{Stopped, session-Stopped, force_stop-Stopped}

-- What has happened when a start reports success.
pub record Started (c : AdbController) (session_id : SessionId) (all_traffic : Bool)
    (w : c.executor.World) : Type 0 where
  pub quiet_at : c.executor.World
  pub quiet : Stopped c quiet_at
  pub added_at : c.executor.World
  pub added : add_until_failure c reverse_mappings quiet_at ≡ ([], added_at)
  pub listed_at : c.executor.World
  pub listed : mapping_health c added_at ≡ (ok (record { missing = [] }), listed_at)
  pub sent : send_start_intent c session_id all_traffic listed_at ≡ (ok tt, w)

module _ (c : AdbController) where
  open c use {executor}

  quiesced :
      (q : Result TransactionError (Unit {0}) × executor.World)
      → (q.0 ≡ ok tt → Stopped c q.1)
      → (after_graceful c q).0 ≡ ok tt
      → Stopped c (after_graceful c q).1
  quiesced (ok _, w) h e = h refl
  quiesced (err graceful, w) h e =
      let (f, g) =
        with_error-ok (behind c graceful) (force_stop_android_session c start_force_quiesce w) tt
          e in
      subst (Stopped c) (sym g) (force_stop-Stopped c start_force_quiesce w f)

  quiesce-Stopped :
      (w : executor.World)
      → (quiesce_android_session c w).0 ≡ ok tt
      → Stopped c (quiesce_android_session c w).1
  unfolding quiesce_android_session
  quiesce-Stopped w =
      quiesced (stop_android_session c start_quiesce w) (session-Stopped c start_quiesce w)

  prepare-Stopped :
      (w : executor.World) → (prepare_start c w).0 ≡ ok tt → Stopped c (prepare_start c w).1
  unfolding prepare_start
  prepare-Stopped w h =
      let (_, _, h₁, e₁) =
        and_then-ok (map_err (single device_check) (require_device c) w) _ tt h in
      let (_, _, h₂, e₂) = and_then-ok (map_err (single device_wake) (wake_android c) _) _ tt h₁ in
      subst (λ q. Stopped c q.1) (sym (e₁ ∙ e₂)) (quiesce-Stopped _ h₂)

  unless_failed-ok :
      (phase : Phase) (q : List Failure × executor.World)
      → (unless_failed c phase q).0 ≡ ok tt
      → q ≡ ([], (unless_failed c phase q).1)
  unfolding roll_back
  unless_failed-ok phase ([], w) h = refl
  unless_failed-ok phase (f ∷ fs, w) h = absurd (ground arith)

  health_failures-ok :
      (f : List ReverseMapping → Failure) (r : Result AdbError MappingHealth)
      → health_failures f r ≡ []
      → r ≡ ok (record { missing = [] })
  health_failures-ok f (ok health) h = ground arith
  health_failures-ok f (err e) h = absurd (ground arith)

  unless_unsent-ok :
      (q : Result AdbError (Unit {0}) × executor.World)
      → (unless_unsent c q).0 ≡ ok tt
      → q ≡ (ok tt, (unless_unsent c q).1)
  unfolding take_back_start roll_back
  unless_unsent-ok (ok _, w) h = refl
  unless_unsent-ok (err e, w) h = absurd (ground arith)

  module _ (session_id : SessionId) (all_traffic : Bool) where
    set_up-ok :
        (w : executor.World)
        → (set_up_mappings c w).0 ≡ ok tt
        → add_until_failure c reverse_mappings w ≡ ([], (set_up_mappings c w).1)
    unfolding set_up_mappings
    set_up-ok w h = unless_failed-ok reverse_setup (add_until_failure c reverse_mappings w) h

    verify-ok :
        (w : executor.World)
        → (verify_mappings c w).0 ≡ ok tt
        → mapping_health c w ≡ (ok (record { missing = [] }), (verify_mappings c w).1)
    unfolding verify_mappings
    verify-ok w h =
        let (health, w₁) = mapping_health c w in
        let e = unless_failed-ok reverse_verify (health_failures missing_after_add health, w₁) h in
        ap₂ (λ (r : Result AdbError MappingHealth) (v : executor.World). (r, v))
          (health_failures-ok missing_after_add health
            (ap (λ (q : List Failure × executor.World). q.0) e))
          (ap (λ (q : List Failure × executor.World). q.1) e)

    service-ok :
        (w : executor.World)
        → (start_service c session_id all_traffic w).0 ≡ ok tt
        → send_start_intent c session_id all_traffic w
          ≡ (ok tt, (start_service c session_id all_traffic w).1)
    unfolding start_service
    service-ok w h = unless_unsent-ok (send_start_intent c session_id all_traffic w) h

    establish-Started :
        (w : executor.World)
        → Stopped c w
        → (establish c session_id all_traffic w).0 ≡ ok tt
        → Started c session_id all_traffic (establish c session_id all_traffic w).1
    unfolding establish
    establish-Started w quiet h =
        let (_, a₁, h₁, e₁) = and_then-ok (set_up_mappings c w) _ tt h in
        let (_, a₂, h₂, e₂) = and_then-ok (verify_mappings c _) _ tt h₁ in
        subst (λ q. Started c session_id all_traffic q.1) (sym (e₁ ∙ e₂))
          (record {
            quiet_at = w;
            quiet = quiet;
            added_at = _;
            added = set_up-ok w a₁;
            listed_at = _;
            listed = verify-ok _ a₂;
            sent = service-ok _ h₂;
          })

    -- A start reports success only if an earlier session was seen closed and its mappings gone, then
    -- every mapping was added without a failure, a listing behind that showed them all, and last of
    -- all the intent was sent; the receipt names the session, the flag and the mappings.
    pub start-Started :
        (w : executor.World) (receipt : StartReceipt)
        → (start c session_id all_traffic w).0 ≡ ok receipt
        → Started c session_id all_traffic (start c session_id all_traffic w).1
          × (receipt ≡ start_receipt c session_id all_traffic)
    unfolding start
    start-Started w receipt h =
        let (_, a₁, h₁, e₁) = and_then-ok (prepare_start c w) _ receipt h in
        let (_, a₂, h₂, e₂) = and_then-ok (establish c session_id all_traffic _) _ receipt h₁ in
        (
          subst (λ q. Started c session_id all_traffic q.1) (sym (e₁ ∙ e₂))
              (establish-Started _ (prepare-Stopped w a₁) a₂),
          sym (ok-injective h₂),
        )
