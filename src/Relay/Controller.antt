-- ===== src/Relay/Controller.antt =====
-- `RelayGateController`. No code panics while it holds the lock, so the lock is never poisoned, and
-- each operation is one step of the eligibility and the gate together.
use quest_vd_wired.Common.{
  ℕ, ◌+◌, ◌%◌, ◌^◌, Bool, true, false, ◌&&◌, ◌||◌, not, ◌==◌, if◌then◌else◌, Option, none, some,
  List, [], ◌∷◌,
}
use quest_vd_wired.Relay.Gate.{
  RelayGateState, default, set_enabled, wait_for_activation, invalidate_and_wait_for_activation,
}

pub record RelayGateController : Type 0 where
  pub gate : RelayGateState
  pub carrier_is_healthy : Bool
  pub control_authenticated : Bool
  pub control_loss_pending : Bool
  pub screen_is_suspended : Bool
  pub control_epoch : ℕ

-- `control_epoch.wrapping_add(1)` on `u64`.
abbrev pub next_epoch : ℕ → ℕ
next_epoch e = (e + 1) % 2 ^ 64

-- `RelayGateController::new` on a new gate.
unfoldable pub new : RelayGateController
unfolding default
new = record {
  gate = default;
  carrier_is_healthy = true;
  control_authenticated = false;
  control_loss_pending = false;
  screen_is_suspended = false;
  control_epoch = 0;
}

unfoldable pub control_connected : RelayGateController → RelayGateController
control_connected c = record c {
  control_epoch = next_epoch c.control_epoch;
  control_loss_pending = false;
  control_authenticated = true;
  screen_is_suspended = false;
  gate = if c.carrier_is_healthy then set_enabled c.gate true else wait_for_activation c.gate;
}

unfoldable pub screen_suspended : RelayGateController → RelayGateController
screen_suspended c = record c {
  control_epoch = next_epoch c.control_epoch;
  control_loss_pending = false;
  control_authenticated = false;
  screen_is_suspended = true;
  gate = invalidate_and_wait_for_activation c.gate;
}

unfoldable pub screen_suspended_if_epoch : RelayGateController → ℕ → RelayGateController × Bool
screen_suspended_if_epoch c epoch =
    if not (c.control_epoch == epoch) || not c.control_authenticated then (c, false) else (
      record c {
        control_epoch = next_epoch c.control_epoch;
        control_loss_pending = false;
        control_authenticated = false;
        screen_is_suspended = true;
        gate = invalidate_and_wait_for_activation c.gate;
      },
      true,
    )

unfoldable pub authenticated_wake : RelayGateController → RelayGateController
authenticated_wake c = record c {
  control_epoch = next_epoch c.control_epoch;
  control_loss_pending = false;
  screen_is_suspended = false;
  gate = wait_for_activation c.gate;
}

-- With the epoch for which the spawned task calls `expire_control_loss` after the grace period.
unfoldable pub control_degraded : RelayGateController → RelayGateController × Option ℕ
control_degraded c =
    if not c.control_authenticated || (c.control_loss_pending || c.screen_is_suspended)
    then (c, none)
    else (
      record c { control_epoch = next_epoch c.control_epoch; control_loss_pending = true },
      some (next_epoch c.control_epoch),
    )

unfoldable pub pending_control_epoch : RelayGateController → Option ℕ
pending_control_epoch c =
    if c.control_authenticated && c.control_loss_pending then some c.control_epoch else none

unfoldable pub control_inactive_if_epoch : RelayGateController → ℕ → RelayGateController × Bool
control_inactive_if_epoch c epoch =
    if not (c.control_epoch == epoch) || (not c.control_authenticated || c.screen_is_suspended)
    then (c, false)
    else (
      record c {
        control_epoch = next_epoch c.control_epoch;
        control_loss_pending = false;
        control_authenticated = false;
        gate = set_enabled c.gate false;
      },
      true,
    )

unfoldable pub expire_control_loss : RelayGateController → ℕ → RelayGateController
unfolding control_inactive_if_epoch
expire_control_loss c epoch = (control_inactive_if_epoch c epoch).0

unfoldable pub control_inactive : RelayGateController → RelayGateController
control_inactive c = record c {
  control_epoch = next_epoch c.control_epoch;
  control_loss_pending = false;
  control_authenticated = false;
  screen_is_suspended = false;
  gate = set_enabled c.gate false;
}

unfoldable pub control_inactive_awaiting_recovery : RelayGateController → RelayGateController
control_inactive_awaiting_recovery c = record c {
  control_epoch = next_epoch c.control_epoch;
  control_loss_pending = false;
  control_authenticated = false;
  screen_is_suspended = false;
  gate = invalidate_and_wait_for_activation c.gate;
}

unfoldable pub carrier_lost : RelayGateController → RelayGateController
carrier_lost c = record c {
  control_epoch = next_epoch c.control_epoch;
  control_loss_pending = false;
  carrier_is_healthy = false;
  control_authenticated = false;
  screen_is_suspended = false;
  gate = set_enabled c.gate false;
}

unfoldable pub carrier_lost_awaiting_recovery : RelayGateController → RelayGateController
carrier_lost_awaiting_recovery c = record c {
  control_epoch = next_epoch c.control_epoch;
  control_loss_pending = false;
  carrier_is_healthy = false;
  control_authenticated = false;
  screen_is_suspended = false;
  gate = invalidate_and_wait_for_activation c.gate;
}

unfoldable pub carrier_healthy : RelayGateController → RelayGateController
carrier_healthy c =
    if c.screen_is_suspended then record c { carrier_is_healthy = true } else record c {
      carrier_is_healthy = true;
      gate =
          if c.control_authenticated then set_enabled c.gate true else wait_for_activation c.gate;
    }

-- The calls that the monitor, the control server and the timers make.
pub data Call : Type 0 where
  connects : Call
  suspends : Call
  suspends_if : ℕ → Call
  wakes : Call
  degrades : Call
  expires : ℕ → Call
  goes_inactive : Call
  goes_inactive_recovering : Call
  loses_carrier : Call
  loses_carrier_recovering : Call
  regains_carrier : Call

unfoldable pub step : RelayGateController → Call → RelayGateController
unfolding control_connected screen_suspended screen_suspended_if_epoch authenticated_wake
    control_degraded expire_control_loss control_inactive control_inactive_awaiting_recovery
    carrier_lost carrier_lost_awaiting_recovery carrier_healthy
step c connects = control_connected c
step c suspends = screen_suspended c
step c (suspends_if epoch) = (screen_suspended_if_epoch c epoch).0
step c wakes = authenticated_wake c
step c degrades = (control_degraded c).0
step c (expires epoch) = expire_control_loss c epoch
step c goes_inactive = control_inactive c
step c goes_inactive_recovering = control_inactive_awaiting_recovery c
step c loses_carrier = carrier_lost c
step c loses_carrier_recovering = carrier_lost_awaiting_recovery c
step c regains_carrier = carrier_healthy c

unfoldable pub run : RelayGateController → List Call → RelayGateController
run c [] = c
run c (x ∷ xs) = run (step c x) xs
