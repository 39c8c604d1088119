-- ===== src/Socks/Flows/Counted.antt =====
-- The counters of the monitor are right, whatever the flows do.
use quest_vd_wired.Common.{ℕ, ◌+◌, ◌≡◌, ◌<◌, List, [], ◌∷◌, ◌==◌, if◌then◌else◌}
use quest_vd_wired.Socks.Flows.{FlowGuard, FlowMonitor}

-- The guards on a port, and those of them that have forwarded.
unfoldable pub on_port : List FlowGuard → ℕ → ℕ
on_port [] i = 0
on_port (g ∷ gs) i = (if g.index == i then 1 else 0) + on_port gs i

unfoldable pub forwarded_on : List FlowGuard → ℕ → ℕ
forwarded_on [] i = 0
forwarded_on (g ∷ gs) i =
    (if g.forwarded then (if g.index == i then 1 else 0) else 0) + forwarded_on gs i

pub record IsCounted (m : FlowMonitor) : Type 0 where
  pub active : (i : ℕ) → m.active i ≡ on_port m.guards i
  pub forwarding : (i : ℕ) → m.forwarding i ≡ forwarded_on m.guards i

-- Every port has a flow that is alive and has forwarded something.
abbrev pub AllForward : List FlowGuard → Type 0
AllForward gs =
    (0 < forwarded_on gs 0)
    × (0 < forwarded_on gs 1)
    × (0 < forwarded_on gs 2)
    × (0 < forwarded_on gs 3)
