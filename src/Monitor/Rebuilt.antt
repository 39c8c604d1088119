-- ===== src/Monitor/Rebuilt.antt =====
-- What a rebuild of the transport does to the relay.
use quest_vd_wired.Common.{
  ◌≡◌, refl, Bool, true, false, not, if◌then◌else◌, Option, none, some, ◌⊎◌, inl, inr, arith, ℕ,
  All, subst, sym,
}
use quest_vd_wired.Relay.Controller.{RelayGateController, loses_carrier_recovering}
use quest_vd_wired.Relay.Controller as Relay
use quest_vd_wired.Relay.Gate.{invalidate_and_wait_for_activation}
use quest_vd_wired.Adb.Types.{AdbController}
use quest_vd_wired.Recovery.State.{TransportRecoveryTrigger}
use quest_vd_wired.Recovery.Monitor.{begin_transport_recovery_attempt, transport_requires_recovery}
use quest_vd_wired.Monitor.Changes.{updates, waits, begins}
use quest_vd_wired.Monitor.Shared.{monitor_change, act}
use quest_vd_wired.Monitor.Host.{Host, is_stopping, does, changes, calls}
use quest_vd_wired.Monitor.Rebuild.{announce_rebuild, after_begin, recover_with, recover_transport}
use quest_vd_wired.Monitor.Keeps.Waits.{Holds, does-keeps, awaits-keeps}
use quest_vd_wired.Monitor.Keeps.Rebuilds.{rebuild-keeps}
use quest_vd_wired.Monitor.Closed.{IsUnserved, IsClosed, IsClosed-Kept}

last_branch :
    {A : Type 0} (a b : Bool) (x y z : A)
    → a ≡ true
    → b ≡ false
    → (if not a then x else if b then y else z) ≡ z
last_branch true false x y z p q = refl
last_branch true true x y z p q = absurd (ground arith)
last_branch false b x y z p q = absurd (ground arith)

module _ (c : AdbController) where
  loses-Holds :
      (h : Host c)
      → All (All IsUnserved) h.others
      → Holds c IsClosed-Kept (calls c h loses_carrier_recovering)
  unfolding does act Relay.step invalidate_and_wait_for_activation
  loses-Holds h w = record {
    held = record { shut = ground arith; unauthenticated = refl };
    waiting = w;
  }

  begun-Holds :
      (o : Option (ℕ × ℕ × TransportRecoveryTrigger)) (b : ℕ × ℕ × TransportRecoveryTrigger)
      (h : Host c)
      → o ≡ some b
      → All (All IsUnserved) h.others
      → Holds c IsClosed-Kept (after_begin c o h)
  unfolding after_begin announce_rebuild
  begun-Holds none b h e w = absurd (ground arith)
  begun-Holds (some (g, attempt, trigger)) b h e w =
      rebuild-keeps c IsClosed-Kept g _
        (awaits-keeps c IsClosed-Kept _ (does-keeps c IsClosed-Kept _ _ _ (loses-Holds h w)))

  recover_with-Holds :
      (device : Bool) (b : ℕ × ℕ × TransportRecoveryTrigger) (h : Host c)
      → (device ≡ false) ⊎ ((begin_transport_recovery_attempt h.shared.monitor).1 ≡ some b)
      → All (All IsUnserved) h.others
      → Holds c IsClosed-Kept (recover_with c device h)
  unfolding recover_with does
  recover_with-Holds false b h e w =
      does-keeps c IsClosed-Kept _
        (monitor_change (updates true false false (some "transport_recovery_waiting_for_device"))) _
        (does-keeps c IsClosed-Kept _ (monitor_change waits) _ (loses-Holds h w))
  recover_with-Holds true b h (inl e) w = absurd (ground arith)
  recover_with-Holds true b h (inr e) w = begun-Holds _ b (changes c h begins) e w

  -- A recovery that is required, with no device or with an attempt that may begin, closes the relay and
  -- leaves it closed, also where the mappings were installed again and the carrier is healthy: whatever
  -- the gate was, it is closed and not authenticated afterwards, if no control connection is served
  -- meanwhile and the monitor is not stopping.
  pub recover_transport-IsClosed :
      (device : Bool) (b : ℕ × ℕ × TransportRecoveryTrigger) (h : Host c)
      → transport_requires_recovery h.shared.monitor ≡ true
      → h.shared.monitor.stopping ≡ false
      → (device ≡ false) ⊎ ((begin_transport_recovery_attempt h.shared.monitor).1 ≡ some b)
      → All (All IsUnserved) h.others
      → IsClosed (recover_transport c h device).0.shared
  unfolding recover_transport
  recover_transport-IsClosed device b h required running e w =
      subst (λ (q : Host c × Bool). IsClosed q.0.shared)
        (sym (
          last_branch (transport_requires_recovery h.shared.monitor) (is_stopping c h) (h, false)
            (h, true) (recover_with c device h, true) required running))
        (recover_with-Holds device b h e w).held
