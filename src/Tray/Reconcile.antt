-- ===== src/Tray/Reconcile.antt =====
-- What the icon does to bring the host to the wanted state, and what it says meanwhile.
use quest_vd_wired.Common.{
  ◌≡◌, ◌≢◌, str_eq, eq_iff, ◌↔◌, Bool, true, false, ◌&&◌, ◌||◌, not, if◌then◌else◌, Option, none,
  some, String, arith, [], ◌∷◌, refl,
}
use quest_vd_wired.HostState.Machine.{
  HostState, stopped, preparing, connected, degraded, stopping, error, contains, state_eq,
}

pub data TrayReconcileAction : Type 0 where
  stay start stop : TrayReconcileAction

pub record TrayHostObservation : Type 0 where
  pub lifecycle : HostState
  pub daemon_running : Bool
  pub runtime_visible : Bool

unfoldable pub is_verified_off : TrayHostObservation → Bool
is_verified_off o = not o.daemon_running && (not o.runtime_visible && state_eq o.lifecycle stopped)

unfoldable pub tray_reconcile_action : Bool → TrayHostObservation → TrayReconcileAction
unfolding is_verified_off
tray_reconcile_action desired_on o =
    if not desired_on
    then (if is_verified_off o then stay else stop)
    else (if o.daemon_running
        then (if contains (preparing ∷ connected ∷ degraded ∷ []) o.lifecycle then stay else stop)
        else (if o.runtime_visible
              || contains (connected ∷ degraded ∷ stopping ∷ error ∷ []) o.lifecycle
            then stop
            else start))

-- `observation.is_some_and(test)`
abbrev pub is_some_and : Option TrayHostObservation → (TrayHostObservation → Bool) → Bool
is_some_and none test = false
is_some_and (some o) test = test o

abbrev pub shows_off : String
shows_off = "Wired link: off"

abbrev pub shows_stopping : String
shows_stopping = "Wired link: stopping"

abbrev pub shows_connected : String
shows_connected = "Quest VD Wired — connected"

abbrev pub shows_asleep : String
shows_asleep = "Wired link: headset asleep — reconnecting"

abbrev pub shows_connecting : String
shows_connecting = "Wired link: connecting — allow USB debugging"

unfoldable pub tray_tooltip : Bool → Option TrayHostObservation → String
unfolding is_verified_off
tray_tooltip desired_on observation =
    if not desired_on
    then (if is_some_and observation is_verified_off then shows_off else shows_stopping)
    else (if is_some_and observation (λ o. o.daemon_running && state_eq o.lifecycle connected)
        then shows_connected
        else (if is_some_and observation (λ o. state_eq o.lifecycle degraded)
            then shows_asleep
            else shows_connecting))

-- The icon starts a host only when it is wanted on and nothing of an earlier one is left: no daemon
-- runs, no runtime is visible, and the last known state is stopped or preparing.
pub starts_only_clean :
    (desired_on : Bool) (o : TrayHostObservation)
    → (tray_reconcile_action desired_on o ≡ start) ↔ (
        (desired_on ≡ true)
        × (o.daemon_running ≡ false)
        × (o.runtime_visible ≡ false)
        × (contains (stopped ∷ preparing ∷ []) o.lifecycle ≡ true))
unfolding tray_reconcile_action
starts_only_clean desired_on o = (λ h. ground arith, λ h. ground arith)

texts_differ : (s t : String) → str_eq s t ≡ false → s ≢ t
texts_differ s t h e = let q = (eq_iff s t).1 e in cc

-- The texts that the claim names differ from the others.
abbrev Differs : String → Type 0
Differs s = (s ≢ shows_stopping) × (s ≢ shows_asleep) × (s ≢ shows_connecting)

off-Differs : Differs shows_off
off-Differs = (
  texts_differ shows_off shows_stopping refl,
  texts_differ shows_off shows_asleep refl,
  texts_differ shows_off shows_connecting refl,
)

connected-Differs : Differs shows_connected
connected-Differs = (
  texts_differ shows_connected shows_stopping refl,
  texts_differ shows_connected shows_asleep refl,
  texts_differ shows_connected shows_connecting refl,
)

off_ne_connected : shows_off ≢ shows_connected
off_ne_connected = texts_differ shows_off shows_connected refl

-- What the icon says agrees with what it does: it says off exactly when the host is wanted off and
-- there is nothing left to do, and if it says connected, there is nothing left to do.
pub tooltip_agrees :
    (desired_on : Bool) (o : TrayHostObservation)
    → ((tray_tooltip desired_on (some o) ≡ shows_off)
        ↔ ((desired_on ≡ false) × (tray_reconcile_action desired_on o ≡ stay)))
      × (tray_tooltip desired_on (some o) ≡ shows_connected
          → tray_reconcile_action desired_on o ≡ stay)
unfolding tray_reconcile_action tray_tooltip
tooltip_agrees desired_on o = (
  (λ h. ground (arith, off-Differs, off_ne_connected), λ h. ground arith),
  λ h. ground (arith, connected-Differs, off_ne_connected),
)
