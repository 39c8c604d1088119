-- ===== src/Tests/Relay.antt =====
-- The relay gate at concrete calls.
use quest_vd_wired.Common.{◌≡◌, refl, true, false, [], ◌∷◌, ◌++◌, arith}
use quest_vd_wired.Relay.Gate.{default, active_generation, invalidates, set_enabled}
use quest_vd_wired.Relay.Controller.{
  RelayGateController, new, connects, loses_carrier, regains_carrier, expires, suspends_if, wakes,
  control_connected, step, run,
}
use quest_vd_wired.Relay.Eligible.{IsEligible, run-new-IsEligible}
use quest_vd_wired.Relay.Flows.{flow_ends}
use quest_vd_wired.Relay.Timers.{late_timer_harmless}

-- The gate after the first connection.
abbrev opened : RelayGateController
opened = record {
  gate = record { enabled = true; awaiting_activation = false; generation = 1 };
  carrier_is_healthy = true;
  control_authenticated = true;
  control_loss_pending = false;
  screen_is_suspended = false;
  control_epoch = 1;
}

opens : run new (connects ∷ []) ≡ opened
unfolding run step new default set_enabled
opens = refl

run-new-IsEligible_example : IsEligible (run new (connects ∷ loses_carrier ∷ regains_carrier ∷ []))
run-new-IsEligible_example = run-new-IsEligible (connects ∷ loses_carrier ∷ regains_carrier ∷ [])

-- The carrier is lost, and the gate opens again when the headset is back.
flow_ends_example :
    invalidates (run opened ((loses_carrier ∷ []) ++ (regains_carrier ∷ connects ∷ []))).gate 1
    ≡ true
unfolding run step set_enabled active_generation
flow_ends_example =
    flow_ends opened (loses_carrier ∷ []) (regains_carrier ∷ connects ∷ []) 1 (omega arith) refl
      refl

late_timer_harmless_example :
    let d = run (control_connected (run opened (wakes ∷ []))) (regains_carrier ∷ []) in
    (step d (expires 1) ≡ d) × (step d (suspends_if 1) ≡ d)
late_timer_harmless_example =
    late_timer_harmless opened (wakes ∷ []) (regains_carrier ∷ []) (omega arith) (omega arith)
