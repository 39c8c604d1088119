-- ===== src/Tests/Liveness.antt =====
-- The liveness policy at concrete times.
use quest_vd_wired.Common.{◌+◌, ◌≡◌, ◌≤◌, refl, true, none, List, [], ◌∷◌, arith}
use quest_vd_wired.Liveness.Policy.{
  AndroidLiveness, connected, restarted, restart_due, from_secs, android_restart_backoff,
}
use quest_vd_wired.Liveness.Restarts.{
  Event, goes_silent, observes, step, run, restarts_spaced, backoff_bounds, backoff_mono,
}

abbrev fresh : AndroidLiveness
fresh = record {
  silent_since = none;
  awake_since = none;
  next_probe_at = none;
  next_restart_at = none;
  restarts = 0;
}

abbrev stays_silent : List Event
stays_silent = goes_silent 0 ∷ observes true 0 ∷ goes_silent (from_secs 70) ∷ []

due_again : restart_due (run (restarted fresh 0) stays_silent) (from_secs 70) ≡ true
unfolding restart_due run step restarted
due_again = refl

due_at_first : restart_due (run (connected fresh) stays_silent) (from_secs 70) ≡ true
unfolding restart_due run step connected
due_at_first = refl

restarts_spaced_example : 0 + from_secs 60 ≤ from_secs 70
restarts_spaced_example =
    restarts_spaced fresh stays_silent 0 (from_secs 70) (tt, (tt, (tt, tt))) due_again

backoff_bounds_example :
    (from_secs 60 ≤ android_restart_backoff 3) × (android_restart_backoff 3 ≤ from_secs 300)
backoff_bounds_example = backoff_bounds 3

backoff_mono_example : android_restart_backoff 1 ≤ android_restart_backoff 4
backoff_mono_example = backoff_mono 1 4 (omega arith)
