-- ===== src/Liveness/Policy.antt =====
-- `AndroidLiveness`, its transitions and its two questions.
use quest_vd_wired.Common.{
  ℕ, ◌+◌, ◌-◌, ◌*◌, ◌^◌, min, Bool, true, false, ◌&&◌, leb, if◌then◌else◌, Option, none, some,
}

pub record AndroidLiveness : Type 0 where
  pub silent_since : Option ℕ
  pub awake_since : Option ℕ
  pub next_probe_at : Option ℕ
  pub next_restart_at : Option ℕ
  pub restarts : ℕ

-- `Duration::from_secs`
abbrev pub from_secs : ℕ → ℕ
from_secs n = n * 1000000000

abbrev pub android_liveness_grace : ℕ
android_liveness_grace = from_secs 10

abbrev pub android_liveness_awake_probe_interval : ℕ
android_liveness_awake_probe_interval = from_secs 5

abbrev pub android_liveness_asleep_probe_interval : ℕ
android_liveness_asleep_probe_interval = from_secs 15

abbrev pub android_restart_initial_backoff : ℕ
android_restart_initial_backoff = from_secs 60

abbrev pub android_restart_max_backoff : ℕ
android_restart_max_backoff = from_secs 300

-- `AndroidLiveness::default()`
unfoldable pub default : AndroidLiveness
default = record {
  silent_since = none;
  awake_since = none;
  next_probe_at = none;
  next_restart_at = none;
  restarts = 0;
}

unfoldable pub connected : AndroidLiveness → AndroidLiveness
unfolding default
connected l = default

unfoldable pub ineligible : AndroidLiveness → AndroidLiveness
ineligible l = record l { silent_since = none; awake_since = none; next_probe_at = none }

abbrev pub or_else : Option ℕ → ℕ → ℕ
or_else none now = now
or_else (some since) now = since

unfoldable pub silent : AndroidLiveness → ℕ → AndroidLiveness
silent l now = record l { silent_since = some (or_else l.silent_since now) }

-- `at.is_none_or(|at| now >= at)`
abbrev pub is_due : Option ℕ → ℕ → Bool
is_due none now = true
is_due (some at) now = leb at now

unfoldable pub probe_due : AndroidLiveness → ℕ → Bool
probe_due l now = is_due l.next_probe_at now

unfoldable pub observed : AndroidLiveness → Bool → ℕ → AndroidLiveness
observed l awake now = record l {
  awake_since = if awake then some (or_else l.awake_since now) else none;
  next_probe_at = some (
      now
      + (if awake
          then android_liveness_awake_probe_interval
          else android_liveness_asleep_probe_interval));
}

-- The closure `elapsed`.
abbrev pub grace_elapsed : Option ℕ → ℕ → Bool
grace_elapsed none now = false
grace_elapsed (some since) now = leb android_liveness_grace (now - since)

unfoldable pub restart_due : AndroidLiveness → ℕ → Bool
restart_due l now =
    grace_elapsed l.silent_since now
    && (grace_elapsed l.awake_since now && is_due l.next_restart_at now)

-- `1 << doublings` is at most 256, so `saturating_mul` does not saturate.
unfoldable pub android_restart_backoff : ℕ → ℕ
android_restart_backoff restarts =
    let doublings = min (restarts - 1) 8 in
    min (android_restart_initial_backoff * 2 ^ doublings) android_restart_max_backoff

-- `restarts.saturating_add(1)` on `u32`.
unfoldable pub restarted : AndroidLiveness → ℕ → AndroidLiveness
unfolding android_restart_backoff
restarted l now =
    let restarts = min (l.restarts + 1) (2 ^ 32 - 1) in
    record {
      silent_since = some now;
      awake_since = none;
      next_probe_at = some (now + android_liveness_awake_probe_interval);
      next_restart_at = some (now + android_restart_backoff restarts);
      restarts = restarts;
    }
