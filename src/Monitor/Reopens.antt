-- ===== src/Monitor/Reopens.antt =====
-- After a rebuild the next authenticated connection opens the relay and completes the recovery.
use quest_vd_wired.Common.{
  ◌≡◌, ◌≢◌, refl, true, false, if◌then◌else◌, none, some, [], String, ◌∙◌, ap, arith, ℕ,
}
use quest_vd_wired.HostState.Machine.{HostState, StateMachine, connected, transport_lost}
use quest_vd_wired.Relay.Controller.{RelayGateController, goes_inactive_recovering, regains_carrier}
use quest_vd_wired.Relay.Controller as Relay
use quest_vd_wired.Relay.Gate.{set_enabled, invalidate_and_wait_for_activation}
use quest_vd_wired.Adb.Types.{AdbController}
use quest_vd_wired.Control.Types.{Observation, published, asleep, woken}
use quest_vd_wired.Control.Connection.{cancel, cancel_active, lose_carrier}
use quest_vd_wired.Control.Run as Control
use quest_vd_wired.Control.Run.{cancels, loses, system_step}
use quest_vd_wired.Recovery.State.{
  AdbHealthMonitor, TransportRecoveryTrigger, TransportRecoverySnapshot, awaiting_control,
  recovered,
}
use quest_vd_wired.Recovery.Monitor.{complete_authenticated_transport_recovery}
use quest_vd_wired.Monitor.Changes.{change, updates, counts_repair, finishes}
use quest_vd_wired.Monitor.Closed.{transport_lost-ne-connected, IsClosed-Kept}
use quest_vd_wired.Monitor.Keeps.Waits.{Holds, does-keeps}
use quest_vd_wired.Monitor.Keeps.Rebuilds.{reset_control-keeps}
use quest_vd_wired.Monitor.Shared.{
  Shared, transport_recovery_reason, is_connected, observe, observe_all, step_control, act,
  unobserved,
}
use quest_vd_wired.Monitor.Host.{Host, does, calls, interrupt, awaits}
use quest_vd_wired.Monitor.Rebuild.{reset_control, rebuilt}
use quest_vd_wired.Monitor.Arms.{take_notice}

-- A loss of the carrier, published, leaves the monitor as it is.
unless_connected :
    (x : HostState) (s t : Shared) → x ≢ connected → (if is_connected x then s else t) ≡ t
unless_connected x s t n = ground arith

loses-monitor : (s : Shared) (r : String) → (step_control s (loses r)).monitor ≡ s.monitor
unfolding step_control system_step observe_all observe lose_carrier
loses-monitor s r =
    ap (λ (t : Shared). t.monitor)
      (unless_connected _ _ _ (transport_lost-ne-connected s.control.server.machine r))

-- What the status and the recovery come to when the attempt is reported.
reported :
    (m : AdbHealthMonitor) (g : ℕ) (t : TransportRecoveryTrigger)
    → m.recovery.generation ≡ g
    → m.recovery.trigger ≡ some t
    → let m' =
        change (change (change m counts_repair) (finishes g true)) (updates true true true none) in
      (m'.recovery.state ≡ awaiting_control)
      × (m'.recovery.trigger ≡ some t)
      × (m'.status.mappings_healthy ≡ true)
unfolding change
reported m g t e f = ground arith

cancels-monitor : (s : Shared) → (step_control s cancels).monitor ≡ s.monitor
unfolding step_control system_step observe_all cancel_active
cancels-monitor s = refl

-- With no other task acting, the wait changes nothing.
quiet-awaits : (c : AdbController) (h : Host c) → h.others ≡ [] → (awaits c h).shared ≡ h.shared
unfolding awaits interrupt
quiet-awaits c h e = ground arith

reset_control-monitor :
    (c : AdbController) (h : Host c)
    → h.others ≡ []
    → (reset_control c h).shared.monitor ≡ h.shared.monitor
unfolding reset_control does act
reset_control-monitor c h e =
    let s = step_control h.shared cancels in
    let h₁ : Host c = record h { shared = s } in
    loses-monitor (awaits c h₁).shared transport_recovery_reason
    ∙ (ap (λ (t : Shared). t.monitor) (quiet-awaits c h₁ e) ∙ cancels-monitor h.shared)

regains-IsHealthy :
    (c : RelayGateController) → (Relay.step c regains_carrier).carrier_is_healthy ≡ true
unfolding Relay.step
regains-IsHealthy c = ground arith

-- The gate when the rebuild has announced that the relay waits for the control lane.
parks-Holds :
    (c : AdbController) (h : Host c)
    → h.others ≡ []
    → Holds c IsClosed-Kept (calls c h goes_inactive_recovering)
unfolding does act Relay.step invalidate_and_wait_for_activation
parks-Holds c h quiet = record {
  held = record { shut = ground arith; unauthenticated = refl };
  waiting = rw quiet tt;
}

rebuilt-Holds :
    (c : AdbController) (g : ℕ) (h : Host c) → h.others ≡ [] → Holds c IsClosed-Kept (rebuilt c g h)
unfolding rebuilt
rebuilt-Holds c g h quiet =
    let k = IsClosed-Kept in
    let q = reset_control-keeps c k _ (parks-Holds c h quiet) in
    does-keeps c k _ _ _ (does-keeps c k _ _ _ (does-keeps c k _ _ _ (does-keeps c k _ _ _ q)))

-- The observers leave the control server as it is.
observe-control : (s : Shared) (o : Observation) → (observe s o).control ≡ s.control
unfolding observe
observe-control s (published m) = ground arith
observe-control s asleep = refl
observe-control s woken = refl

loses-server :
    (s : Shared) (r : String)
    → let server = (step_control s (loses r)).control.server in
      (server.machine ≡ transport_lost s.control.server.machine r)
      × (server.cancelled ≡ s.control.server.cancelled)
unfolding step_control system_step observe_all lose_carrier
loses-server s r =
    let s' : Shared = record s { control = system_step (unobserved s.control) (loses r) } in
    let e = observe-control s' (published (transport_lost s.control.server.machine r)) in
    (
      ap (λ (y : Control.System). y.server.machine) e,
      ap (λ (y : Control.System). y.server.cancelled) e,
    )

cancels-server :
    (s : Shared)
    → let server = (step_control s cancels).control.server in
      (server.machine ≡ s.control.server.machine)
      × (server.cancelled ≡ cancel s.control.server.active s.control.server.cancelled)
unfolding step_control system_step observe_all cancel_active
cancels-server s = (refl, refl)

reset_control-server :
    (c : AdbController) (h : Host c)
    → h.others ≡ []
    → let server = (reset_control c h).shared.control.server in
      let before = h.shared.control.server in
      (server.machine ≡ transport_lost before.machine transport_recovery_reason)
      × (server.cancelled ≡ cancel before.active before.cancelled)
unfolding reset_control does act
reset_control-server c h quiet =
    let h₁ : Host c = record h { shared = step_control h.shared cancels } in
    let (m, x) = loses-server (awaits c h₁).shared transport_recovery_reason in
    let e = quiet-awaits c h₁ quiet in
    let (m', x') = cancels-server h.shared in
    (
      m
          ∙ ap (λ (t : Shared). transport_lost t.control.server.machine transport_recovery_reason) e
          ∙ ap (λ y. transport_lost y transport_recovery_reason) m',
      x ∙ ap (λ (t : Shared). t.control.server.cancelled) e ∙ x',
    )

-- A connection whose handshake is through is published while the recovery waits for it.
connection-observed :
    (s : Shared) (m : StateMachine) (t : TransportRecoveryTrigger)
    → m.state ≡ connected
    → s.monitor.recovery.state ≡ awaiting_control
    → s.gate.carrier_is_healthy ≡ true
    → let s' = observe s (published m) in
      (s'.gate.gate.enabled ≡ true)
      × (s'.monitor.authenticated_reconcile ≡ true)
      × (s'.monitor.recovery ≡ s.monitor.recovery)
unfolding observe set_enabled
connection-observed s m t e a h = ground arith

notice-completes :
    (c : AdbController) (h : Host c) (t : TransportRecoveryTrigger)
    → h.shared.monitor.authenticated_reconcile ≡ true
    → h.shared.monitor.recovery.state ≡ awaiting_control
    → h.shared.monitor.recovery.trigger ≡ some t
    → let (forced, completed, h') = take_notice c h in
      (completed ≡ true) × (h'.shared.monitor.recovery.state ≡ recovered)
unfolding take_notice does act change complete_authenticated_transport_recovery
notice-completes c h t n a f = ground arith

module _ (c : AdbController) (g : ℕ) (t : TransportRecoveryTrigger) (h : Host c)
    (m : StateMachine) where
  abbrev after_rebuild : Shared
  after_rebuild = (rebuilt c g h).shared

  -- The state observer is told of the connection.
  abbrev after_connection : Shared
  after_connection = observe after_rebuild (published m)

  -- The monitor's task takes the notice.
  abbrev at_notice : Host c
  at_notice = record h { shared = after_connection }

  -- The mappings were installed again for the recovery's generation, and no other task acts before this
  -- one is done with it. Then the connection that was active is cancelled, the lifecycle has lost its
  -- transport, the relay is closed and the recovery waits for the control lane. When a connected
  -- lifecycle is published after that, its observer opens the relay and leaves a notice, and the
  -- monitor's task, when it takes the notice, completes the recovery.
  pub rebuilt-recovers :
      h.others ≡ []
      → h.shared.monitor.recovery.generation ≡ g
      → h.shared.monitor.recovery.trigger ≡ some t
      → m.state ≡ connected
      → (after_rebuild.control.server.cancelled
          ≡ cancel h.shared.control.server.active h.shared.control.server.cancelled)
        × (after_rebuild.control.server.machine
            ≡ transport_lost h.shared.control.server.machine transport_recovery_reason)
        × (after_rebuild.gate.gate.enabled ≡ false)
        × (after_rebuild.monitor.recovery.state ≡ awaiting_control)
        × (after_connection.gate.gate.enabled ≡ true)
        × ((take_notice c at_notice).1 ≡ true)
        × ((take_notice c at_notice).2.shared.monitor.recovery.state ≡ recovered)
  unfolding rebuilt does act
  rebuilt-recovers quiet generation trigger on =
      let h₁ = calls c h goes_inactive_recovering in
      let same = reset_control-monitor c h₁ quiet in
      let r =
        reported (reset_control c h₁).shared.monitor g t
          (ap (λ (x : AdbHealthMonitor). x.recovery.generation) same ∙ generation)
          (ap (λ (x : AdbHealthMonitor). x.recovery.trigger) same ∙ trigger) in
      let server = reset_control-server c h₁ quiet in
      let seen =
        connection-observed after_rebuild m t on r.0
          (regains-IsHealthy (reset_control c h₁).shared.gate) in
      let done =
        notice-completes c at_notice t seen.1
          (ap (λ (x : TransportRecoverySnapshot). x.state) seen.2 ∙ r.0)
          (ap (λ (x : TransportRecoverySnapshot). x.trigger) seen.2 ∙ r.1) in
      (server.1, server.0, (rebuilt-Holds c g h quiet).held.shut, r.0, seen.0, done.0, done.1)
