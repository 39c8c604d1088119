-- ===== src/HostState/Run.antt =====
-- What the rest of the host does to the machine: calls of its operations, one after the other.
use quest_vd_wired.Common.{ℕ, List, [], ◌∷◌, String, Outcome, ok, err, panic}
use quest_vd_wired.Protocol.Types.{SessionId}
use quest_vd_wired.HostState.Machine.{
  StateMachine, TransitionError, begin_start, peer_started, heartbeat, tick, transport_lost,
  peer_suspended, begin_stop, finish_stop, fail,
}

pub data Call : Type 0 where
  starts : SessionId → Call
  peer_starts : SessionId → ℕ → Call
  beats : SessionId → ℕ → Call
  ticks : ℕ → Call
  loses : String → Call
  suspends : SessionId → Call
  stops : Call
  finishes : Call
  fails : String → Call

-- A refused call leaves the machine as it was.
abbrev pub or_keep : StateMachine → Outcome TransitionError StateMachine → StateMachine
or_keep m (ok m') = m'
or_keep m (err e) = m
or_keep m panic = m

unfoldable pub step : StateMachine → Call → StateMachine
unfolding begin_start peer_started heartbeat tick transport_lost peer_suspended begin_stop
    finish_stop fail
step m (starts s) = or_keep m (begin_start m s)
step m (peer_starts s now) = or_keep m (peer_started m s now)
step m (beats s now) = or_keep m (heartbeat m s now)
step m (ticks now) = tick m now
step m (loses r) = transport_lost m r
step m (suspends s) = or_keep m (peer_suspended m s)
step m stops = or_keep m (begin_stop m)
step m finishes = or_keep m (finish_stop m)
step m (fails r) = fail m r

unfoldable pub run : StateMachine → List Call → StateMachine
run m [] = m
run m (c ∷ cs) = run (step m c) cs
