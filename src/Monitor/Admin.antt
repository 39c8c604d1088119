-- ===== src/Monitor/Admin.antt =====
-- The administration requests: `AdminServer::handle` of
-- host-rust/crates/gnirehtet-vd/src/runtime.rs, from the request that was read to the response.
use quest_vd_wired.Common.{
  ℕ, ◌+◌, ◌==◌, Bool, true, false, not, if◌then◌else◌, Option, none, some, List, [], ◌∷◌, bytes_eq,
  codes,
}
use quest_vd_wired.HostState.Machine.{HostState, StateMachine, stopped}
use quest_vd_wired.Control.Types.{Answer, Refusal, ControlCommand}
use quest_vd_wired.Control.Run.{asks}
use quest_vd_wired.Adb.Types.{AdbController}
use quest_vd_wired.Monitor.Changes.{resumes, suppresses}
use quest_vd_wired.Monitor.Host.{Host, lifecycle, is_active, changes, steps, awaits, now}
use quest_vd_wired.Monitor.Secret.{constant_time_eq}
use quest_vd_wired.Monitor.Rebuild.{reset_control}

-- Why a stop failed: the reason of the control server, or no answer before the deadline.
pub data AdminError : Type 0 where
  authentication_failed unknown_command requires_stopped stop_timeout : AdminError
  command_rejected : Refusal → AdminError

-- A lifecycle's snapshot is the machine that it shows.
pub record AdminResponse : Type 0 where
  pub accepted : Bool
  pub repairs_suppressed : Bool
  pub error : Option AdminError
  pub status : Option StateMachine

pub record AdminRequest : Type 0 where
  pub token : List ℕ
  pub command : List ℕ

abbrev pub is_stopped : HostState → Bool
is_stopped stopped = true
is_stopped _ = false

abbrev pub no_error : Option AdminError → Bool
no_error none = true
no_error (some e) = false

-- What was answered to a requester.
unfoldable pub answer_of : ℕ → List Answer → Option AdminError
answer_of request [] = some stop_timeout
answer_of request (a ∷ rest) =
    let later = answer_of request rest in
    if a.request == request
    then elim a.refusal [ none ↦ none | some refusal ↦ some (command_rejected refusal) ]
    else later

module _ (c : AdbController) where
  abbrev pub machine : Host c → StateMachine
  machine h = h.shared.control.server.machine

  unfoldable pub host_resume : Host c → AdminResponse × Host c
  host_resume h =
      let h₁ = awaits c h in
      let h₂ = if is_active (lifecycle c h₁) then reset_control c (changes c h₁ resumes) else h₁ in
      (
        record {
          accepted = true;
          repairs_suppressed = false;
          error = none;
          status = some (machine h₂);
        },
        h₂,
      )

  abbrev pub stop_limit : ℕ
  stop_limit = 6000000000

  -- `ControlHandle::request_stop`: the request is sent, and waited for until its deadline. `request`
  -- names the channel of the answer.
  unfoldable pub request_stop : ℕ → Host c → Option AdminError × Host c
  request_stop request h =
      let (t, h₁) = now c h in
      let command : ControlCommand = record { deadline = t + stop_limit; result = request } in
      let h₂ = awaits c (steps c (awaits c h₁) (asks command)) in
      (answer_of request h₂.shared.control.server.answers, h₂)

  -- The repairs are suppressed first, and a repair that holds the operation lock is waited for last.
  unfoldable pub stop : ℕ → Host c → AdminResponse × Host c
  stop request h =
      let (failure, h₁) = request_stop request (changes c h suppresses) in
      let h₂ = awaits c (awaits c h₁) in
      (
        record {
          accepted = no_error failure;
          repairs_suppressed = true;
          error = failure;
          status = some (machine h₂);
        },
        h₂,
      )

  unfoldable pub status : Host c → AdminResponse × Host c
  status h =
      let h₁ = awaits c h in
      (
        record {
          accepted = true;
          repairs_suppressed = false;
          error = none;
          status = some (machine h₁);
        },
        h₁,
      )

  unfoldable pub shutdown : Host c → AdminResponse × Host c
  shutdown h =
      let h₁ = awaits c h in
      let can = is_stopped (lifecycle c h₁) in
      (
        record {
          accepted = can;
          repairs_suppressed = h₁.shared.monitor.status.repair_suppressed;
          error = if can then none else some requires_stopped;
          status = some (machine h₁);
        },
        h₁,
      )

  abbrev pub refuse : AdminError → Host c → AdminResponse × Host c
  refuse e h =
      (record { accepted = false; repairs_suppressed = false; error = some e; status = none }, h)

  unfoldable pub dispatch : List ℕ → ℕ → Host c → AdminResponse × Host c
  dispatch command request h =
      if bytes_eq command (codes "host_resume")
      then host_resume h
      else if bytes_eq command (codes "stop")
      then stop request h
      else if bytes_eq command (codes "status")
      then status h
      else if bytes_eq command (codes "shutdown")
      then shutdown h
      else refuse unknown_command h

  unfoldable pub handle : List ℕ → AdminRequest → ℕ → Host c → AdminResponse × Host c
  handle token r request h =
      if not (constant_time_eq r.token token)
      then refuse authentication_failed h
      else dispatch r.command request h

  -- Whether `handle` tells the runtime to shut down.
  unfoldable pub shuts_down : AdminRequest → AdminResponse → Bool
  shuts_down r response = if bytes_eq r.command (codes "shutdown") then response.accepted else false
