-- ===== src/Relay/Flows.antt =====
-- A flow holds the generation with which it began, and no flow outlives a closed gate.
use quest_vd_wired.Common.{
  ℕ, ◌+◌, ◌-◌, ◌^◌, ◌≡◌, ◌≤◌, ◌<◌, refl, true, false, some, List, [], ◌∷◌, ◌++◌, arith, length,
  length-append, Bool-cases, inl, inr,
}
use quest_vd_wired.Relay.Gate.{
  RelayGateState, set_enabled, wait_for_activation, invalidate_and_wait_for_activation,
  active_generation, invalidates,
}
use quest_vd_wired.Relay.Controller.{RelayGateController, Call, connects, step, run}

-- A step that opens or closes the gate begins a new generation.
record Advances (s t : RelayGateState) : Type 0 where
  grows : s.generation ≤ t.generation
  by_one : t.generation ≤ s.generation + 1
  changed : (s.enabled ≡ t.enabled → ⊥) → s.generation < t.generation

step-Advances :
    (c : RelayGateController) (x : Call)
    → c.gate.generation < 2 ^ 64 - 1
    → Advances c.gate (step c x).gate
unfolding step set_enabled wait_for_activation invalidate_and_wait_for_activation
step-Advances c connects h = ground arith
step-Advances c x h = ground arith

run-grows :
    (c : RelayGateController) (xs : List Call)
    → c.gate.generation + length xs ≤ 2 ^ 64 - 1
    → (c.gate.generation ≤ (run c xs).gate.generation)
      × ((run c xs).gate.generation ≤ c.gate.generation + length xs)
unfolding run
run-grows c [] h = omega arith
run-grows c (x ∷ xs) h =
    let a = step-Advances c x (omega arith) in
    omega (arith, a.grows, a.by_one, run-grows (step c x) xs (omega (arith, a.by_one)))

-- From a closed gate, an open one is of a later generation.
run-reopens :
    (c : RelayGateController) (xs : List Call)
    → c.gate.generation + length xs ≤ 2 ^ 64 - 1
    → c.gate.enabled ≡ false
    → (run c xs).gate.enabled ≡ true
    → c.gate.generation < (run c xs).gate.generation
unfolding run
run-reopens c [] h off on = cc
run-reopens c (x ∷ xs) h off on =
    let a = step-Advances c x (omega arith) in
    elim (Bool-cases (step c x).gate.enabled) [
      | inl e ↦
          omega (arith, a.changed (λ q. cc), run-grows (step c x) xs (omega (arith, a.by_one)))
      | inr e ↦ omega (arith, a.grows, run-reopens (step c x) xs (omega (arith, a.by_one)) e on)
    ]

run-append : (c : RelayGateController) (xs ys : List Call) → run c (xs ++ ys) ≡ run (run c xs) ys
unfolding run
run-append c [] ys = refl
run-append c (x ∷ xs) ys = run-append (step c x) xs ys

-- A flow that began when the gate was open is told to end in every state from some later state
-- on in which the gate was closed, also when it is open again, as long as the 64-bit generation
-- does not saturate.
pub flow_ends :
    (c : RelayGateController) (xs ys : List Call) (g : ℕ)
    → c.gate.generation + length (xs ++ ys) ≤ 2 ^ 64 - 1
    → active_generation c.gate ≡ some g
    → (run c xs).gate.enabled ≡ false
    → invalidates (run c (xs ++ ys)).gate g ≡ true
unfolding active_generation invalidates
flow_ends c xs ys g h a off =
    let n = length-append xs ys in
    let low = run-grows c xs (omega arith) in
    rw (run-append c xs ys) (ground (arith, run-reopens (run c xs) ys (omega arith)))
