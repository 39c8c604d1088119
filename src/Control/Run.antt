-- ===== src/Control/Run.antt =====
-- The control server at work: its connections, the requesters and the carrier, one step at a time.
use quest_vd_wired.Common.{ℕ, ◌+◌, zero, suc, List, [], ◌∷◌, ◌++◌, String, ltb, if◌then◌else◌}
use quest_vd_wired.Control.Types.{
  ControlCommand, ControlServer, greeting, looping, panicked, ended, Phase, Lane, new_lane,
}
use quest_vd_wired.Control.Connection.{Move, move, lose_carrier, cancel_active, request_stop}

pub record System : Type 0 where
  pub server : ControlServer
  pub lanes : List Lane

pub data Step : Type 0 where
  accepts : Step
  on : ℕ → Move → Step
  asks : ControlCommand → Step
  cancels : Step
  loses : String → Step

-- `MAX_CONTROL_HANDLERS`
abbrev pub max_control_handlers : ℕ
max_control_handlers = 4

abbrev pub live_one : Phase → ℕ
live_one greeting = 1
live_one looping = 1
live_one panicked = 0
live_one (ended e) = 0

unfoldable pub live : List Lane → ℕ
live [] = 0
live (l ∷ ls) = live_one l.phase + live ls

-- A connection over the limit is dropped.
unfoldable pub accept : List Lane → List Lane
unfolding live
accept ls = if ltb (live ls) max_control_handlers then ls ++ (new_lane ∷ []) else ls

-- One handler moves.
unfoldable pub move_at : ControlServer → List Lane → ℕ → Move → ControlServer × List Lane
unfolding move
move_at s [] k m = (s, [])
move_at s (l ∷ ls) zero m = let (s₁, l₁) = move s l m in (s₁, l₁ ∷ ls)
move_at s (l ∷ ls) (suc k) m = let (s₁, ls₁) = move_at s ls k m in (s₁, l ∷ ls₁)

unfoldable pub system_step : System → Step → System
unfolding accept move_at request_stop cancel_active lose_carrier
system_step y accepts = record y { lanes = accept y.lanes }
system_step y (on k m) =
    let (s, ls) = move_at y.server y.lanes k m in record { server = s; lanes = ls }
system_step y (asks c) = record y { server = request_stop y.server c }
system_step y cancels = record y { server = cancel_active y.server }
system_step y (loses reason) = record y { server = lose_carrier y.server reason }

unfoldable pub system_run : System → List Step → System
system_run y [] = y
system_run y (x ∷ xs) = system_run (system_step y x) xs
