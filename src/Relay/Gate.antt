-- ===== src/Relay/Gate.antt =====
-- `RelayGate`: the state that its watch channel holds. `send_if_modified` runs its closure on that
-- state; whether it also wakes the receivers is the closure's answer, which the state here shows by
-- its generation.
use quest_vd_wired.Common.{
  ℕ, ◌+◌, ◌-◌, ◌^◌, min, Bool, true, false, ◌&&◌, ◌||◌, not, ◌==◌, if◌then◌else◌, Option, none,
  some,
}

pub record RelayGateState : Type 0 where
  pub enabled : Bool
  pub awaiting_activation : Bool
  pub generation : ℕ

-- `RelayGateState::default()`
unfoldable pub default : RelayGateState
default = record { enabled = false; awaiting_activation = false; generation = 0 }

-- `generation.saturating_add(1)` on `u64`.
abbrev pub next_generation : ℕ → ℕ
next_generation g = min (g + 1) (2 ^ 64 - 1)

abbrev pub bool_eq : Bool → Bool → Bool
bool_eq true b = b
bool_eq false b = not b

unfoldable pub set_enabled : RelayGateState → Bool → RelayGateState
set_enabled s enabled =
    if bool_eq s.enabled enabled && not s.awaiting_activation then s else record {
      enabled = enabled;
      awaiting_activation = false;
      generation = next_generation s.generation;
    }

unfoldable pub wait_for_activation : RelayGateState → RelayGateState
wait_for_activation s =
    if s.enabled || s.awaiting_activation
    then s
    else record s { awaiting_activation = true; generation = next_generation s.generation }

unfoldable pub invalidate_and_wait_for_activation : RelayGateState → RelayGateState
invalidate_and_wait_for_activation s =
    if not s.enabled && s.awaiting_activation then s else record {
      enabled = false;
      awaiting_activation = true;
      generation = next_generation s.generation;
    }

-- A new flow takes the generation that is active.
unfoldable pub active_generation : RelayGateState → Option ℕ
active_generation s = if s.enabled then some s.generation else none

-- The test by which the loop of `wait_for_invalidation` returns, which ends the flow.
unfoldable pub invalidates : RelayGateState → ℕ → Bool
invalidates s generation = not s.enabled || not (s.generation == generation)
