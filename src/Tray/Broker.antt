-- ===== src/Tray/Broker.antt =====
-- `BrokerGate`: one command at a time, and none while shutting down.
use quest_vd_wired.Common.{
  ℕ, ◌+◌, ◌-◌, ◌≡◌, Bool, true, false, ◌||◌, ◌==◌, if◌then◌else◌, List, [], ◌∷◌, arith,
}

pub record BrokerGateState : Type 0 where
  pub active : Bool
  pub shutting_down : Bool

-- With whether a `BrokerCommandGuard` is given out.
unfoldable pub begin_command : BrokerGateState → BrokerGateState × Bool
begin_command s =
    if s.active || s.shutting_down then (s, false) else (record s { active = true }, true)

-- This and `cancel_shutdown` are compiled for tests alone.
unfoldable pub begin_shutdown : BrokerGateState → BrokerGateState × Bool
begin_shutdown s =
    if s.active || s.shutting_down then (s, false) else (record s { shutting_down = true }, true)

unfoldable pub cancel_shutdown : BrokerGateState → BrokerGateState
cancel_shutdown s = record s { shutting_down = false }

-- Also what dropping a guard does.
unfoldable pub finish_command : BrokerGateState → BrokerGateState
finish_command s = record s { active = false }

-- The gate, and how many guards are held: a guard is dropped only by who holds it.
pub record Broker : Type 0 where
  pub gate : BrokerGateState
  pub guards : ℕ

pub data Request : Type 0 where
  commands : Request
  drops_guard : Request
  shuts_down : Request
  cancels : Request

unfoldable pub request : Broker → Request → Broker
unfolding begin_command begin_shutdown cancel_shutdown finish_command
request b commands =
    let (s, given) = begin_command b.gate in
    record { gate = s; guards = if given then b.guards + 1 else b.guards }
request b drops_guard =
    if b.guards == 0 then b else record { gate = finish_command b.gate; guards = b.guards - 1 }
request b shuts_down = record b { gate = (begin_shutdown b.gate).0 }
request b cancels = record b { gate = cancel_shutdown b.gate }

unfoldable pub requests : Broker → List Request → Broker
requests b [] = b
requests b (r ∷ rs) = requests (request b r) rs

-- `BrokerGate::default()`
unfoldable pub idle_broker : Broker
idle_broker = record { gate = record { active = false; shutting_down = false }; guards = 0 }

pub record IsExclusive (b : Broker) : Type 0 where
  pub counts : b.guards ≡ (if b.gate.active then 1 else 0)
  pub apart : b.gate.active ≡ true → b.gate.shutting_down ≡ false

request-IsExclusive : (b : Broker) (r : Request) → IsExclusive b → IsExclusive (request b r)
unfolding request
request-IsExclusive b commands h = ground arith
request-IsExclusive b r h = ground arith

requests-IsExclusive :
    (b : Broker) (rs : List Request) → IsExclusive b → IsExclusive (requests b rs)
unfolding requests
requests-IsExclusive b [] h = h
requests-IsExclusive b (r ∷ rs) h =
    requests-IsExclusive (request b r) rs (request-IsExclusive b r h)

-- Whatever requests reach the broker, it is active exactly while one guard is held, no second one is
-- ever given out, and no command is active while it shuts down.
pub requests-idle-IsExclusive : (rs : List Request) → IsExclusive (requests idle_broker rs)
unfolding idle_broker
requests-idle-IsExclusive rs = requests-IsExclusive idle_broker rs (ground arith)
