-- ===== src/Socks/Flows.antt =====
-- `VirtualDesktopFlowMonitor`: how many flows each of Virtual Desktop's ports has, and how many of them have
-- forwarded anything.
pub mod Counted
use quest_vd_wired.Common.{
  ℕ, zero, suc, ◌+◌, ◌-◌, ◌%◌, ◌^◌, ◌≡◌, ◌<◌, ◌≤◌, ◌↔◌, refl, Option, none, some, Bool, true, false,
  ◌&&◌, List, [], ◌∷◌, ◌++◌, ltb, ◌==◌, length, get_elem?, arith, if◌then◌else◌,
}

abbrev pub virtual_desktop_streamer_ports : List ℕ
virtual_desktop_streamer_ports = 38810 ∷ 38820 ∷ 38830 ∷ 38840 ∷ []

-- `VirtualDesktopFlowGuard`
pub record FlowGuard : Type 0 where
  pub index : ℕ
  pub forwarded : Bool

-- The counters of the monitor, by the index of the port, and the guards that are alive.
pub record FlowMonitor : Type 0 where
  pub active : ℕ → ℕ
  pub forwarding : ℕ → ℕ
  pub guards : List FlowGuard

-- The position of the port.
unfoldable pub position_from : List ℕ → ℕ → ℕ → Option ℕ
position_from [] i port = none
position_from (p ∷ ps) i port =
    let rest = position_from ps (i + 1) port in if p == port then some i else rest

unfoldable pub port_index : ℕ → Option ℕ
unfolding position_from
port_index port = position_from virtual_desktop_streamer_ports 0 port

-- The counters are of 64 bits, and `fetch_add` and `fetch_sub` wrap around.
abbrev pub add_at : (ℕ → ℕ) → ℕ → ℕ → ℕ
add_at f i j = if i == j then (f j + 1) % 2 ^ 64 else f j

abbrev pub sub_at : (ℕ → ℕ) → ℕ → ℕ → ℕ
sub_at f i j = if i == j then (f j + (2 ^ 64 - 1)) % 2 ^ 64 else f j

abbrev pub open_at : FlowMonitor → Option ℕ → FlowMonitor
open_at m none = m
open_at m (some i) = record {
  active = add_at m.active i;
  forwarding = m.forwarding;
  guards = record { index = i; forwarded = false } ∷ m.guards;
}

-- `begin`
unfoldable pub begin_flow : FlowMonitor → ℕ → FlowMonitor
unfolding port_index
begin_flow m port = open_at m (port_index port)

unfoldable pub mark_at : List FlowGuard → ℕ → List FlowGuard
mark_at [] k = []
mark_at (g ∷ gs) zero = record g { forwarded = true } ∷ gs
mark_at (g ∷ gs) (suc k) = g ∷ mark_at gs k

unfoldable pub drop_at : List FlowGuard → ℕ → List FlowGuard
drop_at [] k = []
drop_at (g ∷ gs) zero = gs
drop_at (g ∷ gs) (suc k) = g ∷ drop_at gs k

abbrev pub mark_with : FlowMonitor → ℕ → Option FlowGuard → FlowMonitor
mark_with m k none = m
mark_with m k (some g) = if g.forwarded then m else record {
  active = m.active;
  forwarding = add_at m.forwarding g.index;
  guards = mark_at m.guards k;
}

-- `mark_forwarded` of the guard at this place: the flow is counted once. This and the two operations
-- below are several atomic operations in the program, and here one step: a call that is complete.
unfoldable pub mark_forwarded : FlowMonitor → ℕ → FlowMonitor
unfolding mark_at
mark_forwarded m k = mark_with m k (get_elem? m.guards k)

abbrev pub drop_with : FlowMonitor → ℕ → Option FlowGuard → FlowMonitor
drop_with m k none = m
drop_with m k (some g) = record {
  active = sub_at m.active g.index;
  forwarding = if g.forwarded then sub_at m.forwarding g.index else m.forwarding;
  guards = drop_at m.guards k;
}

-- `VirtualDesktopFlowGuard::drop`
unfoldable pub drop_flow : FlowMonitor → ℕ → FlowMonitor
unfolding drop_at
drop_flow m k = drop_with m k (get_elem? m.guards k)

pub record FlowSnapshot : Type 0 where
  pub connected : Bool
  pub active_ports : ℕ
  pub active_flows : List ℕ

abbrev pub one_if_some : ℕ → ℕ
one_if_some n = if ltb 0 n then 1 else 0

unfoldable pub snapshot : FlowMonitor → FlowSnapshot
snapshot m = record {
  connected =
      ltb 0 (m.forwarding 0)
      && (ltb 0 (m.forwarding 1) && (ltb 0 (m.forwarding 2) && ltb 0 (m.forwarding 3)));
  active_ports =
      one_if_some (m.active 0)
      + (one_if_some (m.active 1) + (one_if_some (m.active 2) + one_if_some (m.active 3)));
  active_flows = m.active 0 ∷ m.active 1 ∷ m.active 2 ∷ m.active 3 ∷ [];
}

-- What happens to the flows.
pub data FlowCall : Type 0 where
  begins forwards drops : ℕ → FlowCall

unfoldable pub flow_step : FlowMonitor → FlowCall → FlowMonitor
unfolding begin_flow mark_forwarded drop_flow
flow_step m (begins port) = begin_flow m port
flow_step m (forwards k) = mark_forwarded m k
flow_step m (drops k) = drop_flow m k

unfoldable pub flow_run : FlowMonitor → List FlowCall → FlowMonitor
flow_run m [] = m
flow_run m (x ∷ xs) = flow_run (flow_step m x) xs

abbrev pub no_flows : FlowMonitor
no_flows = record { active = λ i. 0; forwarding = λ i. 0; guards = [] }
