-- ===== src/Relay/Eligible.antt =====
-- When the gate is open.
use quest_vd_wired.Common.{◌≡◌, true, false, ◌&&◌, List, [], ◌∷◌, arith}
use quest_vd_wired.Relay.Gate.{set_enabled, wait_for_activation, invalidate_and_wait_for_activation}
use quest_vd_wired.Relay.Controller.{RelayGateController, new, Call, connects, step, run}

pub record IsEligible (c : RelayGateController) : Type 0 where
  pub open_iff : c.gate.enabled ≡ (c.carrier_is_healthy && c.control_authenticated)
  pub open_is_active : c.gate.enabled ≡ true → c.gate.awaiting_activation ≡ false
  pub suspended_is_unauthenticated : c.screen_is_suspended ≡ true → c.control_authenticated ≡ false
  pub pending_is_authenticated : c.control_loss_pending ≡ true → c.control_authenticated ≡ true

pub new-IsEligible : IsEligible new
unfolding new
new-IsEligible = ground arith

pub step-IsEligible : (c : RelayGateController) (x : Call) → IsEligible c → IsEligible (step c x)
unfolding step set_enabled wait_for_activation invalidate_and_wait_for_activation
step-IsEligible c connects h = ground arith
step-IsEligible c x h = ground arith

run-IsEligible : (c : RelayGateController) (xs : List Call) → IsEligible c → IsEligible (run c xs)
unfolding run
run-IsEligible c [] h = h
run-IsEligible c (x ∷ xs) h = run-IsEligible (step c x) xs (step-IsEligible c x h)

-- After any calls in any order, late timers included, the gate is open exactly when the carrier is
-- healthy and the control lane is authenticated; an open gate does not wait for activation, a
-- suspended screen is not authenticated, and a control loss is pending only while authenticated.
pub run-new-IsEligible : (xs : List Call) → IsEligible (run new xs)
run-new-IsEligible xs = run-IsEligible new xs new-IsEligible
