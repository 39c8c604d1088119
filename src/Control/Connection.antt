-- ===== src/Control/Connection.antt =====
-- `handle` around the arms: the handshake, the effects one at a time, and the end of a connection.
use quest_vd_wired.Common.{
  ℕ, ◌+◌, ◌-◌, ◌^◌, Option, none, some, Bool, true, false, not, List, [], ◌∷◌, ◌++◌, String, ltb,
  min, length, ◌==◌, if◌then◌else◌, Outcome, ok, err, panic,
}
use quest_vd_wired.Protocol.Types.{SessionId, MessageType, io}
use quest_vd_wired.HostState.Machine.{new, begin_start, transport_lost, fail}
use quest_vd_wired.Control.Types.{Phase}
use quest_vd_wired.Control.Types.{
  ControlError, non_loopback_bind, expected_hello, stale_session, replacement_during_stop, protocol,
  transition, ControlCommand, Refusal, because, no_stop, is_pending, ControlReadMode, active_mode,
  suspended_mode, published, ControlServer, Effect, publishes, forgets_metrics, counts_echo,
  reads_next, writes_hello_ack, writes, writes_status, writes_current_status, fails_machine,
  requeues, breaks, returns, finishes, greeting, looping, panicked, ended, Lane, Received, closed,
  hung_up, refused, received, count_one, is_current, answer, do_next,
}
use quest_vd_wired.Control.Select.{
  Handled, break_with, return_with, is_stopping, is_of_session, refuse, on_tick, on_received,
  take_command, on_deadline,
}

-- `ControlServer::new`, for an address that is a loopback address or not.
unfoldable pub new_server : Bool → SessionId → Outcome ControlError ControlServer
unfolding new begin_start
new_server false session_id = err non_loopback_bind
new_server true session_id = elim (begin_start new session_id) [
  | ok m ↦ ok (record {
    session_id = session_id;
    machine = m;
    active = none;
    cancelled = [];
    connection_generation = 0;
    heartbeats_echoed = 0;
    invalid_heartbeats = 0;
    invalid_metrics = 0;
    android = none;
    commands = [];
    answers = [];
    observations = [];
  })
  | err e ↦ err (transition e)
  | panic ↦ panic
]

abbrev pub cancel : Option ℕ → List ℕ → List ℕ
cancel none cs = cs
cancel (some e) cs = e ∷ cs

abbrev pub is_cancelled : List ℕ → ℕ → Bool
is_cancelled [] epoch = false
is_cancelled (e ∷ es) epoch = if e == epoch then true else is_cancelled es epoch

-- `fetch_add(1).saturating_add(1)`
abbrev pub connection_epoch : ControlServer → ℕ
connection_epoch s = min (s.connection_generation + 1) (2 ^ 64 - 1)

-- The connection becomes the active one, and the one before it is cancelled.
unfoldable pub register : ControlServer → Lane → Handled
register s l = (
  record s {
    connection_generation = count_one s.connection_generation;
    cancelled = cancel s.active s.cancelled;
    active = some (connection_epoch s);
  },
  record l {
    phase = looping;
    epoch = connection_epoch s;
    todo = forgets_metrics ∷ writes_hello_ack ∷ [];
  },
)

abbrev pub is_hello : MessageType → Bool
is_hello MessageType.hello = true
is_hello _ = false

-- The first frame.
unfoldable pub greet : ControlServer → Lane → Received → Handled
unfolding register
greet s l closed = return_with s l (protocol io)
greet s l hung_up = return_with s l (protocol io)
greet s l (refused e) = return_with s l e
greet s l (received f) =
    if not (is_of_session s f)
    then return_with s l (stale_session f.session_id)
    else if not (is_hello f.message_type)
    then return_with s l expected_hello
    else if is_stopping s
    then return_with s l replacement_during_stop
    else register s l

abbrev pub publish : ControlServer → ControlServer
publish s = record s { observations = published s.machine ∷ s.observations }

abbrev pub closed_before_stopped : Option Refusal
closed_before_stopped = some (because "control connection closed before STOPPED")

-- The end of the function, `PendingStop::drop` included.
unfoldable pub finish : ControlServer → Lane → Option ControlError → Handled
unfolding answer
finish s l e = (
  record s { answers = answer l.pending_stop.sender closed_before_stopped s.answers },
  record l { phase = ended e; pending_stop = no_stop; todo = [] },
)

abbrev pub control_transport_lost_reason : String
control_transport_lost_reason = "control transport lost; VPN remains active"

-- Behind the loop: the current connection is forgotten, and the machine is told.
unfoldable pub clean_up : ControlServer → Lane → Option ControlError → Handled
unfolding answer transport_lost fail
clean_up s l e =
    if not (is_current s l.epoch)
    then (s, do_next l (finishes e ∷ []))
    else if is_pending l.pending_stop
    then (
      record s {
        active = none;
        android = none;
        answers = answer l.pending_stop.sender closed_before_stopped s.answers;
        machine =
            fail s.machine
              "control transport was lost during explicit stop; VPN state is unverified";
      },
      do_next (record l { pending_stop = no_stop }) (publishes ∷ finishes e ∷ []),
    )
    else (
      record s {
        active = none;
        android = none;
        machine = transport_lost s.machine control_transport_lost_reason;
      },
      do_next l (publishes ∷ finishes e ∷ []),
    )

abbrev pub write_error : ControlError
write_error = protocol io

-- A write to the peer, which may fail: the error leaves the function.
abbrev pub written : Bool → ControlServer → Lane → List Effect → Handled
written true s l es = (s, do_next l es)
written false s l es = return_with s l write_error

abbrev pub next_mode : Bool → ControlReadMode
next_mode true = suspended_mode
next_mode false = active_mode

-- `requeue_command`, one turn of its loop: the channel holds four commands.
unfoldable pub requeue : ControlServer → Lane → ControlCommand → ℕ → List Effect → Handled
requeue s l c now es =
    if ltb c.deadline now
    then (refuse s c (because "stop request expired"), do_next l es)
    else if ltb (length s.commands) 4
    then (record s { commands = s.commands ++ (c ∷ []) }, do_next l es)
    else (s, do_next l (requeues c ∷ es))

-- One effect; `works` says whether a write, or a message to the reader, gets through.
unfoldable pub perform : ControlServer → Lane → Effect → List Effect → ℕ → Bool → Handled
unfolding fail requeue clean_up finish
perform s l publishes es now works = (publish s, do_next l es)
perform s l forgets_metrics es now works = (record s { android = none }, do_next l es)
perform s l counts_echo es now works =
    (record s { heartbeats_echoed = count_one s.heartbeats_echoed }, do_next l es)
perform s l reads_next es now works =
    if works
    then (s, do_next (record l { read_mode = next_mode l.peer_suspended }) es)
    else break_with s l none
perform s l writes_hello_ack es now works = written works s l es
perform s l (writes f) es now works = written works s l es
perform s l (writes_status id m) es now works = written works s l es
perform s l (writes_current_status id) es now works = written works s l es
perform s l (fails_machine reason) es now works =
    (record s { machine = fail s.machine reason }, do_next l es)
perform s l (requeues c) es now works = requeue s l c now es
perform s l (breaks e) es now works = clean_up s l e
perform s l (returns e) es now works = finish s l (some e)
perform s l (finishes e) es now works = finish s l e

-- What may happen to a handler.
pub data Move : Type 0 where
  greets : Received → Move
  performs : ℕ → Bool → Move
  notices : Move
  ticks : ℕ → Move
  receives : Received → ℕ → Move
  takes_command : ℕ → Move
  passes_deadline : ℕ → Move

-- The `select!`, which is biased: a cancelled connection does nothing else.
unfoldable pub select : ControlServer → Lane → Move → Handled
unfolding on_tick on_received take_command on_deadline
select s l (greets r) = (s, l)
select s l (performs now works) = (s, l)
select s l notices = if is_cancelled s.cancelled l.epoch then break_with s l none else (s, l)
select s l (ticks now) = if is_cancelled s.cancelled l.epoch then (s, l) else on_tick s l now
select s l (receives r now) =
    if is_cancelled s.cancelled l.epoch then (s, l) else on_received s l r now
select s l (takes_command now) =
    if is_cancelled s.cancelled l.epoch then (s, l) else take_command s l now
select s l (passes_deadline now) =
    if is_cancelled s.cancelled l.epoch then (s, l) else on_deadline s l now

abbrev pub greet_move : ControlServer → Lane → Move → Handled
greet_move s l (greets r) = greet s l r
greet_move s l m = (s, l)

abbrev pub perform_move : ControlServer → Lane → Effect → List Effect → Move → Handled
perform_move s l e es (performs now works) = perform s l e es now works
perform_move s l e es m = (s, l)

unfoldable pub phase_move : ControlServer → Lane → Phase → Move → Handled
unfolding greet select
phase_move s l greeting m = greet_move s l m
phase_move s l looping m = select s l m
phase_move s l panicked m = (s, l)
phase_move s l (ended e) m = (s, l)

unfoldable pub todo_move : ControlServer → Lane → List Effect → Move → Handled
unfolding perform phase_move
todo_move s l [] m = phase_move s l l.phase m
todo_move s l (e ∷ es) m = perform_move s l e es m

-- Effects come first; then the handshake or the loop.
unfoldable pub move : ControlServer → Lane → Move → Handled
unfolding todo_move
move s l m = todo_move s l l.todo m

-- `ControlHandle::transport_lost` and the two halves of `reset_transport`.
unfoldable pub lose_carrier : ControlServer → String → ControlServer
unfolding transport_lost
lose_carrier s reason = publish (record s { machine = transport_lost s.machine reason })

unfoldable pub cancel_active : ControlServer → ControlServer
cancel_active s = record s { cancelled = cancel s.active s.cancelled }

unfoldable pub reset_transport : ControlServer → String → ControlServer
unfolding cancel_active lose_carrier
reset_transport s reason = lose_carrier (cancel_active s) reason

-- `request_stop`, its send: the request waits while the channel is full.
unfoldable pub request_stop : ControlServer → ControlCommand → ControlServer
request_stop s c =
    if ltb (length s.commands) 4 then record s { commands = s.commands ++ (c ∷ []) } else s
