-- ===== src/Monitor/Keeps/Waits.antt =====
-- The steps and the waits of the task.
use quest_vd_wired.Common.{All, Bool, true, false, if◌then◌else◌, some, List, [], ◌∷◌}
use quest_vd_wired.Adb.Actions.{Act}
use quest_vd_wired.Adb.Types.{AdbController}
use quest_vd_wired.Control.Run.{cancels, loses}
use quest_vd_wired.Relay.Controller.{
  suspends_if, goes_inactive_recovering, loses_carrier, loses_carrier_recovering, regains_carrier,
}
use quest_vd_wired.Monitor.Changes.{updates}
use quest_vd_wired.Monitor.Shared.{
  Shared, Action, gate_call, control_step, monitor_change, act, act_all,
}
use quest_vd_wired.Monitor.Host.{
  interrupt, Category, Host, does, awaits, now, adb, record_loss, category_text, loss_reason,
}

-- The actions that the monitor's task itself takes.
abbrev pub Own : Action → Type 0
Own (monitor_change x) = Unit {0}
Own (gate_call (suspends_if epoch)) = Unit {0}
Own (gate_call goes_inactive_recovering) = Unit {0}
Own (gate_call loses_carrier) = Unit {0}
Own (gate_call loses_carrier_recovering) = Unit {0}
Own (gate_call regains_carrier) = Unit {0}
Own (gate_call _) = ⊥
Own (control_step cancels) = Unit {0}
Own (control_step (loses reason)) = Unit {0}
Own (control_step _) = ⊥

-- What holds of the shared state whatever this task does next, and whatever the others do of what is
-- allowed.
pub record Kept (P : Shared → Type 0) (Allowed : Action → Type 0) : Type 0 where
  pub own : (s : Shared) (a : Action) → Own a → P s → P (act s a)
  pub other : (s : Shared) (a : Action) → Allowed a → P s → P (act s a)

module _ (c : AdbController) {P : Shared → Type 0} {Allowed : Action → Type 0}
    (k : Kept P Allowed) where
  pub record Holds (h : Host c) : Type 0 where
    pub held : P h.shared
    pub waiting : All (All Allowed) h.others

  pub does-keeps : (h : Host c) (a : Action) (o : Own a) → Holds h → Holds (does c h a)
  unfolding does
  does-keeps h a o p = record { held = k.own h.shared a o p.held; waiting = p.waiting }

  pub if-keeps : (b : Bool) (g h : Host c) → Holds g → Holds h → Holds (if b then g else h)
  if-keeps true g h p q = p
  if-keeps false g h p q = q

  pub pair-if-keeps :
      {A : Type 0} (b : Bool) (x y : A × Host c)
      → Holds x.1
      → Holds y.1
      → Holds (if b then x else y).1
  pair-if-keeps true x y p q = p
  pair-if-keeps false x y p q = q

  act_all-keeps :
      (s : Shared) (actions : List Action) → All Allowed actions → P s → P (act_all s actions)
  unfolding act_all
  act_all-keeps s [] o p = p
  act_all-keeps s (a ∷ rest) (o, os) p = act_all-keeps (act s a) rest os (k.other s a o p)

  interrupt-keeps :
      (h : Host c) (o : List (List Action))
      → All (All Allowed) o
      → Holds h
      → Holds (interrupt c h o)
  unfolding interrupt
  interrupt-keeps h [] w p = p
  interrupt-keeps h (first ∷ later) (w, ws) p = record {
    held = act_all-keeps h.shared first w p.held;
    waiting = ws;
  }

  pub awaits-keeps : (h : Host c) → Holds h → Holds (awaits c h)
  unfolding awaits
  awaits-keeps h p = interrupt-keeps h h.others p.waiting p

  pub now-keeps : (h : Host c) → Holds h → Holds (now c h).1
  unfolding now
  now-keeps h p = record { held = p.held; waiting = p.waiting }

  pub adb-keeps :
      {E A : Type 0} (action : Act c.executor.World E A) (h : Host c)
      → Holds h
      → Holds (adb c action h).1
  unfolding adb
  adb-keeps action h p =
      let h₁ : Host c = record h { world = (action h.world).1 } in
      awaits-keeps h₁ (record { held = p.held; waiting = p.waiting })

  pub record_loss-keeps :
      (h : Host c) (device : Bool) (x : Category) → Holds h → Holds (record_loss c h device x)
  unfolding record_loss
  record_loss-keeps h device x p =
      let q =
        does-keeps h (monitor_change (updates true device false (some (category_text x)))) _ p in
      if-keeps _ _ _ (does-keeps _ (control_step (loses (loss_reason x))) _ (awaits-keeps _ q)) q
