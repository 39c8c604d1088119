-- ===== src/Tests/Recovery.antt =====
-- The transport recovery at concrete calls.
use quest_vd_wired.Common.{◌≡◌, refl, false, none, List, [], ◌∷◌}
use quest_vd_wired.Recovery.State.{default, failed, host_resume}
use quest_vd_wired.Recovery.Monitor.{rearm_failed_transport}
use quest_vd_wired.Recovery.Run.{System, Call, start, resumes, begins, finishes, step, run}
use quest_vd_wired.Recovery.Invariant.{IsSound, run-start-IsSound}
use quest_vd_wired.Recovery.Attempts.{rearmed_once}

-- Two attempts fail.
abbrev two_failures : List Call
two_failures = begins ∷ finishes false ∷ begins ∷ finishes false ∷ begins ∷ []

abbrev exhausted : System
exhausted = run start (resumes ∷ two_failures)

gives_up : exhausted.monitor.recovery.state ≡ failed
unfolding run step start default
gives_up = refl

run-start-IsSound_example : IsSound exhausted.monitor
run-start-IsSound_example = run-start-IsSound (resumes ∷ two_failures)

rearmed_once_example :
    (rearm_failed_transport
      (run
        (record exhausted { monitor = (rearm_failed_transport exhausted.monitor 1 host_resume).0 })
        (two_failures)).monitor
      2
      host_resume).1
    ≡ none
unfolding run step start default rearm_failed_transport
rearmed_once_example =
    rearmed_once exhausted two_failures 1 2 2 host_resume host_resume refl
      (tt, (tt, (tt, (tt, (tt, tt)))))
