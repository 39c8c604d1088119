-- ===== src/Control/Select.antt =====
-- The arms of the loop of `handle`. An arm is what is done under the lock of the state machine; the
-- effects that follow it are left to do, in their order.
use quest_vd_wired.Common.{
  ℕ, Option, none, some, Bool, true, false, ◌&&◌, ◌||◌, not, List, [], ◌∷◌, Outcome, ok, err, panic,
  ◌==◌, ltb, leb, length, bytes_eq, if◌then◌else◌,
}
use quest_vd_wired.Protocol.Types.{SessionId, MessageType, Frame}
use quest_vd_wired.Protocol.Metrics.{AndroidMetricsV1, MetricsError, decode}
use quest_vd_wired.HostState.Machine.{
  HostState, StateMachine, TransitionError, state_eq, peer_started, heartbeat, tick, peer_suspended,
  begin_stop, finish_stop, fail,
}
use quest_vd_wired.Control.Types.{
  ControlError, stale_session, unexpected_message, unsolicited_stopped, invalid_heartbeat_payload,
  invalid_started_payload, invalid_suspend_payload, transition, ControlCommand, Refusal, because,
  rejected, no_stop, is_pending, woken, asleep, ControlServer, Effect, publishes, counts_echo,
  reads_next, writes, writes_status, writes_current_status, fails_machine, requeues, breaks,
  returns, panicked, Lane, Received, closed, hung_up, refused, received, count_one, is_current,
  answer, do_next,
}

abbrev pub Handled : Type 0
Handled = ControlServer × Lane

abbrev pub break_with : ControlServer → Lane → Option ControlError → Handled
break_with s l e = (s, do_next l (breaks e ∷ []))

abbrev pub return_with : ControlServer → Lane → ControlError → Handled
return_with s l e = (s, do_next l (returns e ∷ []))

abbrev pub is_stopping : ControlServer → Bool
is_stopping s = state_eq s.machine.state HostState.stopping

-- `state.operation()?`
unfoldable pub try_transition :
    ControlServer → Lane → (StateMachine → Handled) → Outcome TransitionError StateMachine → Handled
try_transition s l k (ok m) = k m
try_transition s l k (err e) = return_with s l (transition e)
try_transition s l k panic = (s, record l { phase = panicked })

abbrev pub publish_if : Bool → List Effect → List Effect
publish_if true es = publishes ∷ es
publish_if false es = es

-- A tick of the heartbeat interval.
unfoldable pub on_tick : ControlServer → Lane → ℕ → Handled
unfolding tick
on_tick s l now =
    if is_current s l.epoch
    then (
      record s { machine = tick s.machine now },
      do_next l (publish_if (not (state_eq s.machine.state (tick s.machine now).state)) []),
    )
    else break_with s l none

-- Whether a STARTED frame wakes; `none` is an invalid payload.
unfoldable pub wake_of : List ℕ → Option Bool
wake_of [] = some false
wake_of (b ∷ []) = if b == 1 then some true else none
wake_of (b ∷ c ∷ bs) = none

abbrev pub observe_wake : Bool → ControlServer → ControlServer
observe_wake true s = record s { observations = woken ∷ s.observations }
observe_wake false s = s

abbrev pub status_if : Bool → SessionId → List Effect → List Effect
status_if true id es = writes_current_status id ∷ es
status_if false id es = es

-- A STARTED frame with a valid payload.
unfoldable pub accept_started : ControlServer → Lane → Frame → ℕ → Bool → Handled
unfolding peer_started try_transition
accept_started s l f now wake =
    if not (is_current s l.epoch)
    then break_with s l none
    else if is_stopping s
    then (s, do_next (record l { peer_suspended = false }) (publishes ∷ reads_next ∷ []))
    else try_transition s l
        (λ m. (
          observe_wake wake (record s { machine = m }),
          do_next (record l { peer_suspended = false })
              (publishes ∷ status_if wake f.session_id (reads_next ∷ [])),
        ))
        (peer_started s.machine f.session_id now)

unfoldable pub on_started : ControlServer → Lane → Frame → ℕ → Handled
unfolding wake_of accept_started
on_started s l f now = elim (wake_of f.payload) [
  | none ↦ break_with s l (some (invalid_started_payload (length f.payload)))
  | some wake ↦ accept_started s l f now wake
]

-- The echo of a heartbeat, and what follows it.
abbrev pub echo : Frame → Bool → List Effect
echo f changed =
    writes (record {
      message_type = MessageType.heartbeat;
      session_id = f.session_id;
      payload = f.payload;
    })
    ∷ counts_echo
    ∷ publish_if changed (reads_next ∷ [])

unfoldable pub on_heartbeat : ControlServer → Lane → Frame → ℕ → Handled
unfolding heartbeat try_transition
on_heartbeat s l f now =
    if not (length f.payload == 16)
    then break_with (record s { invalid_heartbeats = count_one s.invalid_heartbeats }) l
        (some (invalid_heartbeat_payload (length f.payload)))
    else if not (is_current s l.epoch)
    then break_with s l none
    else if is_stopping s
    then (s, do_next l (echo f false))
    else try_transition s l
        (λ m.
          (record s { machine = m }, do_next l (echo f (not (state_eq s.machine.state m.state)))))
        (heartbeat s.machine f.session_id now)

-- A STOPPED frame completes the pending stop of this connection.
unfoldable pub on_stopped : ControlServer → Lane → Handled
unfolding finish_stop try_transition answer
on_stopped s l =
    if not (is_current s l.epoch)
    then break_with s l none
    else if not (is_pending l.pending_stop) || not (is_stopping s)
    then break_with s l (some unsolicited_stopped)
    else try_transition s l
        (λ m. (
          record s { machine = m; answers = answer l.pending_stop.sender none s.answers },
          do_next (record l { pending_stop = no_stop }) (publishes ∷ reads_next ∷ []),
        ))
        (finish_stop s.machine)

unfoldable pub on_status : ControlServer → Lane → Frame → Handled
on_status s l f =
    if not (is_current s l.epoch)
    then break_with s l none
    else (s, do_next l (writes_status f.session_id s.machine ∷ reads_next ∷ []))

abbrev pub note_metrics : ControlServer → Outcome MetricsError AndroidMetricsV1 → ControlServer
note_metrics s (ok metrics) = record s { android = some metrics }
note_metrics s (err e) = record s { invalid_metrics = count_one s.invalid_metrics }
note_metrics s panic = s

-- `decode` does not panic, whatever the payload.
unfoldable pub on_metrics : ControlServer → Lane → Frame → Handled
unfolding decode
on_metrics s l f =
    if not (is_current s l.epoch)
    then break_with s l none
    else (note_metrics s (decode f.payload), do_next l (reads_next ∷ []))

abbrev pub acknowledge : Frame → List Effect
acknowledge f =
    writes
      (record { message_type = MessageType.suspended; session_id = f.session_id; payload = [] })
    ∷ reads_next
    ∷ []

unfoldable pub on_suspend : ControlServer → Lane → Frame → Handled
unfolding peer_suspended try_transition
on_suspend s l f =
    if ltb 0 (length f.payload)
    then break_with s l (some (invalid_suspend_payload (length f.payload)))
    else if not (is_current s l.epoch)
    then break_with s l none
    else if is_stopping s
    then (s, do_next l (acknowledge f))
    else try_transition s l
        (λ m. (
          record s { machine = m; observations = asleep ∷ s.observations },
          do_next (record l { peer_suspended = true }) (publishes ∷ acknowledge f),
        ))
        (peer_suspended s.machine f.session_id)

unfoldable pub on_error : ControlServer → Lane → Handled
unfolding fail
on_error s l = if not (is_current s l.epoch) then break_with s l none else (
  record s { machine = fail s.machine "Android peer reported an error" },
  do_next l (publishes ∷ reads_next ∷ []),
)

-- The match on the type of a message of the session.
unfoldable pub on_message : ControlServer → Lane → Frame → ℕ → MessageType → Handled
unfolding on_started on_heartbeat on_stopped on_status on_metrics on_suspend on_error
on_message s l f now MessageType.started = on_started s l f now
on_message s l f now MessageType.heartbeat = on_heartbeat s l f now
on_message s l f now MessageType.stopped = on_stopped s l
on_message s l f now MessageType.status = on_status s l f
on_message s l f now MessageType.metrics = on_metrics s l f
on_message s l f now MessageType.suspend = on_suspend s l f
on_message s l f now MessageType.error = on_error s l
on_message s l f now MessageType.hello = break_with s l (some (unexpected_message f.message_type))
on_message s l f now MessageType.hello_ack =
    break_with s l (some (unexpected_message f.message_type))
on_message s l f now MessageType.suspended =
    break_with s l (some (unexpected_message f.message_type))
on_message s l f now MessageType.stop = break_with s l (some (unexpected_message f.message_type))

-- `validate_session`
abbrev pub is_of_session : ControlServer → Frame → Bool
is_of_session s f = bytes_eq f.session_id.bytes s.session_id.bytes

unfoldable pub on_received : ControlServer → Lane → Received → ℕ → Handled
unfolding on_message
on_received s l closed now = break_with s l none
on_received s l hung_up now = break_with s l none
on_received s l (refused e) now = break_with s l (some e)
on_received s l (received f) now =
    if is_of_session s f
    then on_message s l f now f.message_type
    else return_with s l (stale_session f.session_id)

abbrev pub stop_frame : ControlServer → Frame
stop_frame s = record { message_type = MessageType.stop; session_id = s.session_id; payload = [] }

abbrev pub refuse : ControlServer → ControlCommand → Refusal → ControlServer
refuse s c reason = record s {
  answers = record { request = c.result; refusal = some reason } ∷ s.answers;
}

abbrev pub stop_begun :
    ControlServer → Lane → ControlCommand → Outcome TransitionError StateMachine → Handled
stop_begun s l c (ok m) = (
  record s { machine = m },
  do_next
      (record l { pending_stop = record { sender = some c.result; deadline = some c.deadline } })
      (publishes ∷ writes (stop_frame s) ∷ []),
)
stop_begun s l c (err e) = (refuse s c (rejected e), l)
stop_begun s l c panic = (s, record l { phase = panicked })

-- A command that was taken from the queue.
unfoldable pub on_command : ControlServer → Lane → ControlCommand → ℕ → Handled
unfolding begin_stop
on_command s l c now =
    if ltb c.deadline now
    then (refuse s c (because "stop request expired"), l)
    else if is_pending l.pending_stop
    then (refuse s c (because "stop is already pending"), l)
    else if not (is_current s l.epoch)
    then (s, do_next l (requeues c ∷ breaks none ∷ []))
    else stop_begun s l c (begin_stop s.machine)

unfoldable pub take_command : ControlServer → Lane → ℕ → Handled
unfolding on_command
take_command s l now = elim s.commands [
  | [] ↦ (s, l)
  | c ∷ cs ↦ on_command (record s { commands = cs }) l c now
]

abbrev pub deadline_passed : Option ℕ → ℕ → Bool
deadline_passed none now = false
deadline_passed (some d) now = leb d now

-- The deadline of the pending stop. The machine fails under its lock, which is taken afterwards.
unfoldable pub on_deadline : ControlServer → Lane → ℕ → Handled
unfolding answer
on_deadline s l now =
    if is_pending l.pending_stop && deadline_passed l.pending_stop.deadline now
    then (
      record s {
        answers =
            answer l.pending_stop.sender (some (because "timed out waiting for Android STOPPED"))
              s.answers;
      },
      do_next (record l { pending_stop = no_stop })
          (fails_machine "explicit stop timed out; VPN state is unverified" ∷ publishes ∷ []),
    )
    else (s, l)
