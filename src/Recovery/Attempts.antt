-- ===== src/Recovery/Attempts.antt =====
-- How often the recovery is tried.
use quest_vd_wired.Common.{
  ℕ, ◌+◌, ◌≡◌, ◌≤◌, Option, none, some, List, [], ◌∷◌, arith, All, refl, ◌∙◌,
}
use quest_vd_wired.Recovery.State.{AdbHealthMonitor, TransportRecoveryTrigger, max_attempts}
use quest_vd_wired.Recovery.Monitor.{rearm_failed_transport}
use quest_vd_wired.Recovery.Run.{
  System, Call, resumes, schedules, rearms_authenticated, begins, finishes, completes, expires,
  disconnects, reconnects, suppresses, updates, shows, step, run,
}

-- Calls that begin no new generation and do not reset the count of attempts.
abbrev pub KeepsGeneration : Call → Type 0
KeepsGeneration begins = Unit {0}
KeepsGeneration (finishes b) = Unit {0}
KeepsGeneration completes = Unit {0}
KeepsGeneration (expires g a) = Unit {0}
KeepsGeneration (schedules g) = Unit {0}
KeepsGeneration disconnects = Unit {0}
KeepsGeneration suppresses = Unit {0}
KeepsGeneration (updates a d h e) = Unit {0}
KeepsGeneration (shows status) = Unit {0}
KeepsGeneration _ = ⊥

-- 1 if the call begins an attempt.
abbrev pub begun : Option ℕ → Option ℕ → ℕ
begun none (some g) = 1
begun _ _ = 0

unfoldable pub attempts : System → List Call → ℕ
attempts s [] = 0
attempts s (c ∷ cs) = begun s.attempt (step s c).attempt + attempts (step s c) cs

step-attempts :
    (s : System) (c : Call)
    → KeepsGeneration c
    → s.monitor.recovery.attempt ≤ max_attempts
    → (s.monitor.recovery.attempt + begun s.attempt (step s c).attempt
        ≤ (step s c).monitor.recovery.attempt)
      × ((step s c).monitor.recovery.attempt ≤ max_attempts)
unfolding step
step-attempts s resumes k h = absurd k
step-attempts s c k h = ground arith

-- Within one generation, and while the device is there, at most two attempts are begun, whatever
-- else happens.
pub attempts_bounded :
    (s : System) (cs : List Call)
    → All KeepsGeneration cs
    → s.monitor.recovery.attempt ≤ max_attempts
    → s.monitor.recovery.attempt + attempts s cs ≤ max_attempts
unfolding attempts
attempts_bounded s [] k h = omega arith
attempts_bounded s (c ∷ cs) (k, ks) h =
    let (grows, bound) = step-attempts s c k h in
    omega (arith, attempts_bounded (step s c) cs ks bound)

-- Calls other than a trigger from outside and an authenticated rearm.
abbrev pub IsAutomatic : Call → Type 0
IsAutomatic resumes = ⊥
IsAutomatic reconnects = ⊥
IsAutomatic rearms_authenticated = ⊥
IsAutomatic _ = Unit {0}

abbrev pub IsUsedUp : AdbHealthMonitor → Type 0
IsUsedUp m = m.auto_rearm_generation ≡ m.recovery.generation

step-IsUsedUp :
    (s : System) (c : Call)
    → IsAutomatic c
    → IsUsedUp s.monitor
    → IsUsedUp (step s c).monitor
      × ((step s c).monitor.recovery.generation ≡ s.monitor.recovery.generation)
unfolding step
step-IsUsedUp s resumes k h = absurd k
step-IsUsedUp s c k h = ground arith

run-IsUsedUp :
    (s : System) (cs : List Call)
    → All IsAutomatic cs
    → IsUsedUp s.monitor
    → IsUsedUp (run s cs).monitor
      × ((run s cs).monitor.recovery.generation ≡ s.monitor.recovery.generation)
unfolding run
run-IsUsedUp s [] k h = (h, refl)
run-IsUsedUp s (c ∷ cs) (k, ks) h =
    let (u, e) = step-IsUsedUp s c k h in
    let (u', e') = run-IsUsedUp (step s c) cs ks u in (u', e' ∙ e)

rearm_refused :
    (m : AdbHealthMonitor) (g : ℕ) (t : TransportRecoveryTrigger)
    → IsUsedUp m
    → (rearm_failed_transport m g t).1 ≡ none
unfolding rearm_failed_transport
rearm_refused m g t h = ground arith

rearm_uses_up :
    (m : AdbHealthMonitor) (g g' : ℕ) (t : TransportRecoveryTrigger)
    → (rearm_failed_transport m g t).1 ≡ some g'
    → IsUsedUp (rearm_failed_transport m g t).0
unfolding rearm_failed_transport
rearm_uses_up m g g' t h = ground arith

-- A failed recovery is rearmed by itself at most once: after that, until the host resumes, the cable
-- is plugged in again or the control lane authenticates, no timer rearms it, of whatever generation.
pub rearmed_once :
    (s : System) (cs : List Call) (g g' h : ℕ) (t u : TransportRecoveryTrigger)
    → (rearm_failed_transport s.monitor g t).1 ≡ some g'
    → All IsAutomatic cs
    → (rearm_failed_transport
        (run (record s { monitor = (rearm_failed_transport s.monitor g t).0 }) cs).monitor
        h
        u).1
      ≡ none
rearmed_once s cs g g' h t u e k =
    let s' : System = record s { monitor = (rearm_failed_transport s.monitor g t).0 } in
    rearm_refused (run s' cs).monitor h u
      (run-IsUsedUp s' cs k (rearm_uses_up s.monitor g g' t e)).0
