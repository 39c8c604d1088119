-- ===== src/Tests/Tray.antt =====
-- The broker's gate and the icon at concrete requests.
use quest_vd_wired.Common.{◌≡◌, refl, true, false, [], ◌∷◌}
use quest_vd_wired.HostState.Machine.{stopped}
use quest_vd_wired.Tray.Broker.{
  IsExclusive, requests, idle_broker, commands, shuts_down, drops_guard, requests-idle-IsExclusive,
  request,
}
use quest_vd_wired.Tray.Reconcile.{TrayHostObservation, tray_reconcile_action, start}

abbrev all_off : TrayHostObservation
all_off = record { lifecycle = stopped; daemon_running = false; runtime_visible = false }

starts_clean : tray_reconcile_action true all_off ≡ start
unfolding tray_reconcile_action
starts_clean = refl

refuses_shutdown : (requests idle_broker (commands ∷ shuts_down ∷ [])).gate.shutting_down ≡ false
unfolding requests request idle_broker
refuses_shutdown = refl

requests-idle-IsExclusive_example :
    IsExclusive (requests idle_broker (commands ∷ commands ∷ shuts_down ∷ drops_guard ∷ []))
requests-idle-IsExclusive_example =
    requests-idle-IsExclusive (commands ∷ commands ∷ shuts_down ∷ drops_guard ∷ [])
