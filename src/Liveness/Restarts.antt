-- ===== src/Liveness/Restarts.antt =====
-- When the Android service is restarted.
use quest_vd_wired.Common.{
  ℕ, zero, suc, ◌+◌, ◌-◌, refl, ap, ◌∙◌, ◌^◌, min, ◌≡◌, ◌≤◌, Bool, true, false, Option-cases, inl,
  inr, Option, none, some, List, [], ◌∷◌, arith, All,
}
use native.Mathlib.Nat.{pow-suc, add-suc, add-zero}
use quest_vd_wired.Liveness.Policy.{
  AndroidLiveness, connected, ineligible, silent, observed, restart_due, android_restart_backoff,
  restarted, from_secs, default, or_else,
}

-- What the supervisor does between restarts.
pub data Event : Type 0 where
  connects : Event
  goes_ineligible : Event
  goes_silent : ℕ → Event
  observes : Bool → ℕ → Event

unfoldable pub step : AndroidLiveness → Event → AndroidLiveness
unfolding connected default ineligible silent observed
step l connects = connected l
step l goes_ineligible = ineligible l
step l (goes_silent now) = silent l now
step l (observes awake now) = observed l awake now

unfoldable pub run : AndroidLiveness → List Event → AndroidLiveness
run l [] = l
run l (e ∷ es) = run (step l e) es

one-le-pow : (k : ℕ) → 1 ≤ 2 ^ k
one-le-pow zero = omega arith
one-le-pow (suc k) = rw pow-suc (omega (arith, one-le-pow k))

-- The pause after a restart is at least one minute and at most five.
pub backoff_bounds :
    (restarts : ℕ)
    → (from_secs 60 ≤ android_restart_backoff restarts)
      × (android_restart_backoff restarts ≤ from_secs 300)
unfolding android_restart_backoff
backoff_bounds restarts = omega (arith, one-le-pow (min (restarts - 1) 8))

-- It grows with the number of restarts.
pow_mono : (j k : ℕ) → 2 ^ j ≤ 2 ^ (j + k)
pow_mono j zero = rw add-zero (omega arith)
pow_mono j (suc k) = rw (add-suc, pow-suc) (omega (arith, pow_mono j k))

pub backoff_mono : (m n : ℕ) → m ≤ n → android_restart_backoff m ≤ android_restart_backoff n
unfolding android_restart_backoff
backoff_mono m n h =
    let j = min (m - 1) 8 in
    let k = min (n - 1) 8 in
    let e : 2 ^ (j + (k - j)) ≡ 2 ^ k = ap (λ (t : ℕ). 2 ^ t) (omega arith) in
    omega (arith, pow_mono j (k - j), e)

-- A connection forgets the earlier restarts.
abbrev pub NotConnecting : Event → Type 0
NotConnecting connects = ⊥
NotConnecting e = Unit {0}

step-next_restart :
    (l : AndroidLiveness) (e : Event)
    → NotConnecting e
    → (step l e).next_restart_at ≡ l.next_restart_at
unfolding step
step-next_restart l e k = ground arith

run-next_restart :
    (l : AndroidLiveness) (es : List Event)
    → All NotConnecting es
    → (run l es).next_restart_at ≡ l.next_restart_at
unfolding run
run-next_restart l [] k = refl
run-next_restart l (e ∷ es) (k, ks) = run-next_restart (step l e) es ks ∙ step-next_restart l e k

-- However the headset is observed after a restart: without a connection in between, the next
-- restart comes a minute later at the earliest.
pub restarts_spaced :
    (l : AndroidLiveness) (es : List Event) (at now : ℕ)
    → All NotConnecting es
    → restart_due (run (restarted l at) es) now ≡ true
    → at + from_secs 60 ≤ now
unfolding restart_due restarted
restarts_spaced l es at now k due =
    let e = run-next_restart (restarted l at) es k in
    ground (arith, backoff_bounds (min (l.restarts + 1) (2 ^ 32 - 1)))

-- The times since when the headset is silent and awake, as far as they are known, are no earlier
-- than `t`.
abbrev pub Since : ℕ → Option ℕ → Type 0
Since t none = Unit {0}
Since t (some s) = t ≤ s

pub record BothSince (t : ℕ) (l : AndroidLiveness) : Type 0 where
  pub silent_later : Since t l.silent_since
  pub awake_later : Since t l.awake_since

abbrev pub NotBefore : ℕ → Event → Type 0
NotBefore t (goes_silent now) = t ≤ now
NotBefore t (observes awake now) = t ≤ now
NotBefore t e = Unit {0}

or_else-Since : (t : ℕ) (o : Option ℕ) (now : ℕ) → Since t o → t ≤ now → t ≤ or_else o now
or_else-Since t none now h k = k
or_else-Since t (some s) now h k = h

step-BothSince :
    (t : ℕ) (l : AndroidLiveness) (e : Event)
    → NotBefore t e
    → BothSince t l
    → BothSince t (step l e)
unfolding step
step-BothSince t l connects k h = record { silent_later = tt; awake_later = tt }
step-BothSince t l goes_ineligible k h = record { silent_later = tt; awake_later = tt }
step-BothSince t l (goes_silent now) k h = record {
  silent_later = or_else-Since t l.silent_since now h.silent_later k;
  awake_later = h.awake_later;
}
step-BothSince t l (observes true now) k h = record {
  silent_later = h.silent_later;
  awake_later = or_else-Since t l.awake_since now h.awake_later k;
}
step-BothSince t l (observes false now) k h = record {
  silent_later = h.silent_later;
  awake_later = tt;
}

run-BothSince :
    (t : ℕ) (l : AndroidLiveness) (es : List Event)
    → All (NotBefore t) es
    → BothSince t l
    → BothSince t (run l es)
unfolding run
run-BothSince t l [] k h = h
run-BothSince t l (e ∷ es) (k, ks) h = run-BothSince t (step l e) es ks (step-BothSince t l e k h)

due-after :
    (t now : ℕ) (l : AndroidLiveness)
    → BothSince t l
    → restart_due l now ≡ true
    → t + from_secs 10 ≤ now
unfolding restart_due
due-after t now l h due = elim (Option-cases l.silent_since) [
  | inl e ↦ absurd (ground arith)
  | inr (s, e) ↦ let u : t ≤ s = rw e at h.silent_later in ground arith
]

-- A headset that connected at time `t`, and of which nothing is known from before, is restarted ten
-- seconds later at the earliest, whatever is observed of it from then on.
pub restart_needs_grace :
    (l : AndroidLiveness) (es : List Event) (t now : ℕ)
    → All (NotBefore t) es
    → restart_due (run (connected l) es) now ≡ true
    → t + from_secs 10 ≤ now
unfolding connected default
restart_needs_grace l es t now k due =
    due-after t now (run (connected l) es)
      (run-BothSince t (connected l) es k (record { silent_later = tt; awake_later = tt })) due
