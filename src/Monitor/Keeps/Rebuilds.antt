-- ===== src/Monitor/Keeps/Rebuilds.antt =====
-- `recover_transport`.
use quest_vd_wired.Common.{ℕ, Bool, true, false, not, if◌then◌else◌, Option, none, some}
use quest_vd_wired.Recovery.State.{TransportRecoveryTrigger}
use quest_vd_wired.Recovery.Monitor.{transport_requires_recovery}
use quest_vd_wired.Adb.Actions.{Result, ok, err}
use quest_vd_wired.Adb.Types.{AdbController, TransactionError}
use quest_vd_wired.Adb.Transactions.{reinstall_mappings}
use quest_vd_wired.Monitor.Shared.{Action, Shared}
use quest_vd_wired.Monitor.Host.{Host, is_stopping}
use quest_vd_wired.Monitor.Rebuild.{
  reset_control, rebuilt, retry_or_rearm, not_rebuilt, conclude, settle_rebuild, rebuild,
  announce_rebuild, after_begin, recover_with, recover_transport,
}
use quest_vd_wired.Monitor.Keeps.Waits.{Kept, Holds, does-keeps, if-keeps, awaits-keeps, adb-keeps}

module _ (c : AdbController) {P : Shared → Type 0} {Allowed : Action → Type 0}
    (k : Kept P Allowed) where
  pub reset_control-keeps : (h : Host c) → Holds c k h → Holds c k (reset_control c h)
  unfolding reset_control
  reset_control-keeps h p = does-keeps c k _ _ _ (awaits-keeps c k _ (does-keeps c k h _ _ p))

  rebuilt-keeps : (g : ℕ) (h : Host c) → Holds c k h → Holds c k (rebuilt c g h)
  unfolding rebuilt
  rebuilt-keeps g h p =
      let q = reset_control-keeps _ (does-keeps c k h _ _ p) in
      does-keeps c k _ _ _ (does-keeps c k _ _ _ (does-keeps c k _ _ _ (does-keeps c k _ _ _ q)))

  retry_or_rearm-keeps :
      (g : ℕ) (retry : Bool) (h : Host c) → Holds c k h → Holds c k (retry_or_rearm c g retry h)
  unfolding retry_or_rearm
  retry_or_rearm-keeps g retry h p = if-keeps c k retry _ _ p (does-keeps c k h _ _ p)

  not_rebuilt-keeps : (g : ℕ) (h : Host c) → Holds c k h → Holds c k (not_rebuilt c g h)
  unfolding not_rebuilt
  not_rebuilt-keeps g h p =
      retry_or_rearm-keeps g _ _
        (does-keeps c k _ _ _ (does-keeps c k _ _ _ (does-keeps c k h _ _ p)))

  conclude-keeps :
      (g : ℕ) (r : Result TransactionError (Unit {0})) (h : Host c)
      → Holds c k h
      → Holds c k (conclude c g r h)
  unfolding conclude
  conclude-keeps g (ok _) h p = rebuilt-keeps g h p
  conclude-keeps g (err e) h p = not_rebuilt-keeps g h p

  settle_rebuild-keeps :
      (g : ℕ) (q : Result TransactionError (Unit {0}) × Host c)
      → Holds c k q.1
      → Holds c k (settle_rebuild c g q)
  unfolding settle_rebuild
  settle_rebuild-keeps g (r, h) p = if-keeps c k _ _ _ p (conclude-keeps g r h p)

  pub rebuild-keeps : (g : ℕ) (h : Host c) → Holds c k h → Holds c k (rebuild c g h)
  unfolding rebuild
  rebuild-keeps g h p =
      if-keeps c k (is_stopping c h) _ _ p
        (settle_rebuild-keeps g _ (adb-keeps c k (reinstall_mappings c) h p))

  after_begin-keeps :
      (o : Option (ℕ × ℕ × TransportRecoveryTrigger)) (h : Host c)
      → Holds c k h
      → Holds c k (after_begin c o h)
  unfolding after_begin announce_rebuild
  after_begin-keeps none h p = p
  after_begin-keeps (some (g, attempt, trigger)) h p =
      rebuild-keeps g _ (awaits-keeps c k _ (does-keeps c k _ _ _ (does-keeps c k h _ _ p)))

  recover_with-keeps :
      (device : Bool) (h : Host c) → Holds c k h → Holds c k (recover_with c device h)
  unfolding recover_with
  recover_with-keeps false h p =
      does-keeps c k _ _ _ (does-keeps c k _ _ _ (does-keeps c k h _ _ p))
  recover_with-keeps true h p = after_begin-keeps _ _ (does-keeps c k h _ _ p)

  pair-if-keeps :
      (b : Bool) (x y : Host c × Bool)
      → Holds c k x.0
      → Holds c k y.0
      → Holds c k (if b then x else y).0
  pair-if-keeps true x y p q = p
  pair-if-keeps false x y p q = q

  pub recover_transport-keeps :
      (h : Host c) (device : Bool) → Holds c k h → Holds c k (recover_transport c h device).0
  unfolding recover_transport
  recover_transport-keeps h device p =
      pair-if-keeps (not (transport_requires_recovery h.shared.monitor)) _ _ p
        (pair-if-keeps (is_stopping c h) _ _ p (recover_with-keeps device h p))
