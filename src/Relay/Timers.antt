-- ===== src/Relay/Timers.antt =====
-- The grace period of a lost control lane: the timer that `control_degraded` starts carries an epoch.
use quest_vd_wired.Common.{
  ℕ, ◌+◌, ◌%◌, ◌^◌, ◌≡◌, ◌≤◌, ◌<◌, ◌≢◌, ◌⊎◌, inl, inr, false, some, none, List, [], ◌∷◌, arith,
  length,
}
use quest_vd_wired.Relay.Gate.{set_enabled}
use quest_vd_wired.Relay.Controller.{
  RelayGateController, Call, connects, expires, suspends_if, control_degraded, control_connected,
  next_epoch, expire_control_loss, step, run,
}

-- The epoch stays, or moves on by one step.
step-epoch :
    (c : RelayGateController) (x : Call)
    → ((step c x).control_epoch ≡ c.control_epoch)
      ⊎ ((step c x).control_epoch ≡ next_epoch c.control_epoch)
unfolding step
step-epoch c connects = ground arith
step-epoch c x = ground arith

run-epoch :
    (c : RelayGateController) (xs : List Call)
    → c.control_epoch < 2 ^ 64
    → (k : ℕ) × (k ≤ length xs) × ((run c xs).control_epoch ≡ (c.control_epoch + k) % 2 ^ 64)
unfolding run
run-epoch c [] h = (0, omega arith, omega arith)
run-epoch c (x ∷ xs) h = elim (step-epoch c x) [
  | inl e ↦
      let (k, le, eq) = run-epoch (step c x) xs (omega (arith, e)) in
      (k, omega arith, omega (arith, e))
  | inr e ↦
      let (k, le, eq) = run-epoch (step c x) xs (omega (arith, e)) in
      (k + 1, omega arith, omega (arith, e))
]

-- A timer or a request that carries an old epoch does nothing.
old_epoch :
    (c : RelayGateController) (e : ℕ)
    → c.control_epoch ≢ e
    → (step c (expires e) ≡ c) × (step c (suspends_if e) ≡ c)
unfolding step
old_epoch c e h = (ground arith, ground arith)

-- A control lane that came back is not closed by the timer of its earlier loss, nor is the headset
-- taken for asleep by a request of before: whatever calls stand around the reconnection, fewer than
-- 2 ^ 64 in all, what carries the epoch of before it changes nothing.
pub late_timer_harmless :
    (c : RelayGateController) (xs ys : List Call)
    → c.control_epoch < 2 ^ 64
    → length xs + length ys + 1 < 2 ^ 64
    → let d = run (control_connected (run c xs)) ys in
      (step d (expires c.control_epoch) ≡ d) × (step d (suspends_if c.control_epoch) ≡ d)
unfolding control_connected
late_timer_harmless c xs ys h n =
    let (j, j_le, j_eq) = run-epoch c xs h in
    let (k, k_le, k_eq) = run-epoch (control_connected (run c xs)) ys (omega arith) in
    old_epoch (run (control_connected (run c xs)) ys) c.control_epoch (λ e. omega arith)

-- If the control lane does not come back before the timer fires, the timer closes the gate.
pub timer_closes :
    (c : RelayGateController) (e : ℕ)
    → (control_degraded c).1 ≡ some e
    → let d = expire_control_loss (control_degraded c).0 e in
      (d.gate.enabled ≡ false)
      × (d.control_authenticated ≡ false)
      × (d.control_loss_pending ≡ false)
unfolding control_degraded expire_control_loss set_enabled
timer_closes c e h = ground arith

-- The grace period itself leaves the gate and the authentication alone, and starts one timer.
pub grace_keeps_open :
    (c : RelayGateController)
    → ((control_degraded c).0.gate ≡ c.gate)
      × ((control_degraded c).0.control_authenticated ≡ c.control_authenticated)
      × ((control_degraded (control_degraded c).0).1 ≡ none)
unfolding control_degraded
grace_keeps_open c = (ground arith, ground arith, ground arith)
