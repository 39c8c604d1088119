-- ===== src/HostState/Traces.antt =====
-- Which calls lead where.
use quest_vd_wired.Common.{
  ℕ, ◌+◌, ◌≡◌, ◌≢◌, ◌≤◌, ◌<◌, ◌↔◌, ◌⊎◌, refl, Option, none, some, List, [], ◌∷◌, true, false, arith,
  All, ◌∙◌,
}
use quest_vd_wired.Protocol.Types.{SessionId}
use quest_vd_wired.HostState.Machine.{
  HostState, StateMachine, stopped, connected, degraded, stopping, error, headset_suspended_reason,
  session_matches, is_suspended_reason, tick, new,
}
use quest_vd_wired.HostState.Run.{
  Call, step, run, starts, peer_starts, beats, ticks, suspends, stops, finishes, fails,
}

-- A session under way is left only by `begin_stop` and `fail`.
abbrev pub Live : HostState → Type 0
Live stopped = ⊥
Live stopping = ⊥
Live error = ⊥
Live _ = Unit {0}

abbrev pub KeepsAlive : Call → Type 0
KeepsAlive stops = ⊥
KeepsAlive (fails r) = ⊥
KeepsAlive _ = Unit {0}

step-Live :
    (m : StateMachine) (c : Call)
    → KeepsAlive c
    → Live m.state
    → Live (step m c).state × ((step m c).session_id ≡ m.session_id)
unfolding step
step-Live m c k h = ground arith

-- However long a session under way goes without heartbeats, loses its transport, sleeps or is
-- refused a call: without a call of `begin_stop` or `fail` it stays under way, with the session that
-- it began with.
pub run-Live :
    (m : StateMachine) (cs : List Call)
    → All KeepsAlive cs
    → Live m.state
    → Live (run m cs).state × ((run m cs).session_id ≡ m.session_id)
unfolding run
run-Live m [] k h = (h, refl)
run-Live m (c ∷ cs) (k, ks) h =
    let (live, same) = step-Live m c k h in
    let (live', same') = run-Live (step m c) cs ks live in (live', same' ∙ same)

-- A headset that has said that it sleeps.
abbrev pub IsSuspended : StateMachine → Type 0
IsSuspended m = (m.state ≡ degraded) × (m.reason ≡ some headset_suspended_reason)

abbrev pub NeverWakes : Call → Type 0
NeverWakes (peer_starts s now) = ⊥
NeverWakes stops = ⊥
NeverWakes (fails r) = ⊥
NeverWakes _ = Unit {0}

step-IsSuspended :
    (m : StateMachine) (c : Call) → NeverWakes c → IsSuspended m → IsSuspended (step m c)
unfolding step is_suspended_reason
step-IsSuspended m (starts s) k h = ground arith
step-IsSuspended m c k h = ground arith

-- A suspended session stays suspended, with that reason, through heartbeats, ticks and losses of the
-- transport, until the peer starts again or the host stops or fails it.
pub run-IsSuspended :
    (m : StateMachine) (cs : List Call) → All NeverWakes cs → IsSuspended m → IsSuspended (run m cs)
unfolding run
run-IsSuspended m [] k h = h
run-IsSuspended m (c ∷ cs) (k, ks) h = run-IsSuspended (step m c) cs ks (step-IsSuspended m c k h)

-- A connected session is degraded by a tick exactly when the last heartbeat is three seconds old
-- or older, and else it stays connected.
pub tick_degrades :
    (m : StateMachine) (last now : ℕ)
    → m.state ≡ connected
    → m.last_heartbeat ≡ some last
    → (((tick m now).state ≡ degraded) ↔ (last + 3000000000 ≤ now))
      × (((tick m now).state ≡ connected) ↔ (now < last + 3000000000))
unfolding tick
tick_degrades m last now c h =
    ((λ e. ground arith, λ e. ground arith), (λ e. ground arith, λ e. ground arith))

-- The calls that name a session, by which the peer speaks.
abbrev pub speaks : Call → Option SessionId
speaks (peer_starts s now) = some s
speaks (beats s now) = some s
speaks (suspends s) = some s
speaks _ = none

-- A message of another session than the machine's changes nothing.
pub step-stale :
    (m : StateMachine) (c : Call) (s : SessionId)
    → speaks c ≡ some s
    → session_matches m.session_id s ≡ false
    → step m c ≡ m
unfolding step
step-stale m (starts x) s e h = cc
step-stale m c s e h = ground arith

-- A session that is under way or has failed is stopped by `begin_stop` and `stopped`, which leave a new machine.
pub stop_restores :
    (m : StateMachine)
    → m.state ≢ stopped
    → m.state ≢ stopping
    → run m (stops ∷ finishes ∷ []) ≡ new
unfolding run step new
stop_restores m h k = ground arith

-- Only `stopped`, called while stopping, makes a machine stopped that was not.
pub step-stopped :
    (m : StateMachine) (c : Call)
    → (step m c).state ≡ stopped
    → (m.state ≡ stopped) ⊎ (m.state ≡ stopping) × (c ≡ finishes)
unfolding step
step-stopped m (starts s) h = ground arith
step-stopped m c h = ground arith

-- A heartbeat of the machine's own session brings a degraded session that is not asleep back to
-- connected, and then only three seconds without a heartbeat degrade it.
pub heartbeat_recovers :
    (m : StateMachine) (s : SessionId) (now later : ℕ)
    → m.state ≡ degraded
    → is_suspended_reason m.reason ≡ false
    → session_matches m.session_id s ≡ true
    → later < now + 3000000000
    → ((run m (beats s now ∷ ticks later ∷ [])).state ≡ connected)
      × ((run m (beats s now ∷ ticks later ∷ [])).reason ≡ none)
unfolding run step
heartbeat_recovers m s now later d k h l = ground arith
