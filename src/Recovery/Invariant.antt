-- ===== src/Recovery/Invariant.antt =====
-- What holds of the recovery at any time.
use quest_vd_wired.Common.{◌≡◌, ◌≢◌, ◌≤◌, ◌<◌, ◌^◌, none, List, [], ◌∷◌, arith}
use quest_vd_wired.Recovery.State.{
  AdbHealthMonitor, idle, waiting_for_device, rebuilding_mappings, failed, max_attempts, default,
}
use quest_vd_wired.Recovery.Run.{System, start, Call, step, run, resumes}

pub record IsSound (m : AdbHealthMonitor) : Type 0 where
  pub attempts_bounded : m.recovery.attempt ≤ max_attempts
  pub failed_exhausted : m.recovery.state ≡ failed → m.recovery.attempt ≡ max_attempts
  pub has_trigger : m.recovery.state ≢ idle → m.recovery.trigger ≢ none
  pub rebuilding_counted : m.recovery.state ≡ rebuilding_mappings → 1 ≤ m.recovery.attempt
  pub waiting_uncounted : m.recovery.state ≡ waiting_for_device → m.recovery.attempt ≡ 0
  pub generation_is_u64 : m.recovery.generation < 2 ^ 64

-- While an attempt is under way the recovery is not idle.
pub record IsSystem (s : System) : Type 0 where
  pub sound : IsSound s.monitor
  pub under_way : s.attempt ≢ none → s.monitor.recovery.state ≢ idle

start-IsSystem : IsSystem start
unfolding start default
start-IsSystem = ground arith

step-IsSystem : (s : System) (c : Call) → IsSystem s → IsSystem (step s c)
unfolding step
step-IsSystem s resumes h = ground arith
step-IsSystem s c h = ground arith

run-IsSystem : (s : System) (cs : List Call) → IsSystem s → IsSystem (run s cs)
unfolding run
run-IsSystem s [] h = h
run-IsSystem s (c ∷ cs) h = run-IsSystem (step s c) cs (step-IsSystem s c h)

-- Whatever order triggers, attempts, timers, the control lane and the writes of the status come in, and
-- whatever these write: no more than two attempts are counted, a failed recovery has used them up, one
-- that rebuilds has counted one at least, one that waits for the device has none, a recovery that is
-- not idle knows its trigger, and the generation is a 64-bit number.
pub run-start-IsSound : (cs : List Call) → IsSound (run start cs).monitor
run-start-IsSound cs = (run-IsSystem start cs start-IsSystem).sound
