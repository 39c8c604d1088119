-- ===== src/Tests/HostState.antt =====
-- The host's state machine at concrete calls.
use quest_vd_wired.Common.{◌≡◌, refl, some, none, [], ◌∷◌, replicate}
use quest_vd_wired.Protocol.Types.{SessionId}
use quest_vd_wired.HostState.Machine.{
  StateMachine, connected, degraded, headset_suspended_reason, new, is_suspended_reason,
}
use quest_vd_wired.HostState.Run.{starts, peer_starts, beats, ticks, loses, suspends, step, run}
use quest_vd_wired.HostState.Invariant.{IsConsistent, run-new-IsConsistent}
use quest_vd_wired.HostState.Traces.{Live, run-Live, IsSuspended, run-IsSuspended}

abbrev mine : SessionId
mine = record { bytes = replicate 16 1 }

abbrev stale : SessionId
stale = record { bytes = replicate 16 2 }

abbrev up : StateMachine
up = record {
  state = connected;
  session_id = some mine;
  last_heartbeat = some 5;
  missed_heartbeats = 0;
  reason = none;
}

abbrev asleep : StateMachine
asleep = record {
  state = degraded;
  session_id = some mine;
  last_heartbeat = none;
  missed_heartbeats = 0;
  reason = some headset_suspended_reason;
}

abbrev cut : StateMachine
cut = record {
  state = degraded;
  session_id = some mine;
  last_heartbeat = some 5;
  missed_heartbeats = 3;
  reason = some "lost";
}

reaches_up : run new (starts mine ∷ peer_starts mine 5 ∷ []) ≡ up
unfolding run step new
reaches_up = refl

falls_asleep : run up (suspends mine ∷ loses "lost" ∷ []) ≡ asleep
unfolding run step is_suspended_reason
falls_asleep = refl

run-new-IsConsistent_example :
    IsConsistent (run new (starts mine ∷ peer_starts mine 5 ∷ ticks 9 ∷ []))
run-new-IsConsistent_example =
    run-new-IsConsistent (starts mine ∷ peer_starts mine 5 ∷ ticks 9 ∷ [])

run-Live_example :
    Live (run up (ticks 3000000005 ∷ loses "lost" ∷ [])).state
    × ((run up (ticks 3000000005 ∷ loses "lost" ∷ [])).session_id ≡ some mine)
run-Live_example = run-Live up (ticks 3000000005 ∷ loses "lost" ∷ []) (tt, (tt, tt)) tt

run-IsSuspended_example : IsSuspended (run asleep (beats mine 9 ∷ loses "lost" ∷ []))
run-IsSuspended_example =
    run-IsSuspended asleep (beats mine 9 ∷ loses "lost" ∷ []) (tt, (tt, tt)) (refl, refl)
