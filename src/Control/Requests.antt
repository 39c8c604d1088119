-- ===== src/Control/Requests.antt =====
-- Where the stop requests are: in the channel, with a connection, or answered.
use quest_vd_wired.Common.{
  ℕ, ◌+◌, ◌≡◌, refl, Option, none, some, Bool, true, false, ◌==◌, List, [], ◌∷◌, ◌++◌, arith,
  if◌then◌else◌,
}
use quest_vd_wired.Protocol.Types.{MessageType, Frame}
use quest_vd_wired.Control.Types.{
  ControlServer, ControlCommand, Answer, Lane, received, Effect, requeues, answer,
}
use quest_vd_wired.Control.Select.{
  Handled, on_tick, on_started, accept_started, on_heartbeat, on_stopped, on_status, on_metrics,
  on_suspend, on_error, on_message, on_received, on_command, take_command, on_deadline,
  try_transition,
}
use quest_vd_wired.Control.Connection.{finish, clean_up, requeue, perform, select, Move, receives}

abbrev pub one_if : Bool → ℕ
one_if true = 1
one_if false = 0

unfoldable pub queued : List ControlCommand → ℕ → ℕ
queued [] r = 0
queued (c ∷ cs) r = one_if (c.result == r) + queued cs r

unfoldable pub answered : List Answer → ℕ → ℕ
answered [] r = 0
answered (a ∷ rest) r = one_if (a.request == r) + answered rest r

abbrev pub pending : Option ℕ → ℕ → ℕ
pending none r = 0
pending (some q) r = one_if (q == r)

abbrev pub taken_back : Effect → ℕ → ℕ
taken_back (requeues c) r = one_if (c.result == r)
taken_back e r = 0

unfoldable pub returning : List Effect → ℕ → ℕ
returning [] r = 0
returning (e ∷ es) r = taken_back e r + returning es r

abbrev pub held : Lane → ℕ → ℕ
held l r = pending l.pending_stop.sender r + returning l.todo r

abbrev pub shared_count : ControlServer → ℕ → ℕ
shared_count s r = queued s.commands r + answered s.answers r

abbrev pub total : Handled → ℕ → ℕ
total h r = shared_count h.0 r + held h.1 r

-- A request is taken back before anything else is done.
abbrev pub takes_back : Effect → Bool
takes_back (requeues c) = true
takes_back e = false

unfoldable pub is_calm : List Effect → Bool
is_calm [] = true
is_calm (e ∷ es) = if takes_back e then false else is_calm es

unfoldable pub is_tidy : List Effect → Bool
unfolding is_calm
is_tidy [] = true
is_tidy (e ∷ es) = is_calm es

pub calm_none : (es : List Effect) (r : ℕ) → is_calm es ≡ true → returning es r ≡ 0
unfolding is_calm returning
calm_none [] r h = refl
calm_none (requeues c ∷ es) r h = absurd (ground arith)
calm_none (e ∷ es) r h = ground (arith, calm_none es r)

calm_tidy : (es : List Effect) → is_calm es ≡ true → is_tidy es ≡ true
unfolding is_calm is_tidy
calm_tidy [] h = refl
calm_tidy (e ∷ es) h = ground arith

pub queued-append :
    (xs : List ControlCommand) (c : ControlCommand) (r : ℕ)
    → queued (xs ++ (c ∷ [])) r ≡ queued xs r + one_if (c.result == r)
unfolding queued
queued-append [] c r = omega arith
queued-append (x ∷ xs) c r = ground (arith, queued-append xs c r)

message_counts :
    (s : ControlServer) (l : Lane) (f : Frame) (now : ℕ) (t : MessageType) (r : ℕ)
    → l.todo ≡ []
    → total (on_message s l f now t) r ≡ total (s, l) r
unfolding on_message on_started accept_started on_heartbeat on_stopped on_status on_metrics
    on_suspend on_error try_transition returning answer answered
message_counts s l f now MessageType.started r h = ground arith
message_counts s l f now MessageType.heartbeat r h = ground arith
message_counts s l f now MessageType.stopped r h = ground arith
message_counts s l f now MessageType.status r h = ground arith
message_counts s l f now MessageType.metrics r h = ground arith
message_counts s l f now MessageType.suspend r h = ground arith
message_counts s l f now MessageType.error r h = ground arith
message_counts s l f now t r h = ground arith

pub select_counts :
    (s : ControlServer) (l : Lane) (m : Move) (r : ℕ)
    → l.todo ≡ []
    → total (select s l m) r ≡ total (s, l) r
unfolding select on_tick on_deadline on_received take_command on_command returning answer answered
    queued
select_counts s l (receives (received f) now) r h =
    ground (arith, message_counts s l f now f.message_type r h)
select_counts s l m r h = ground arith

pub perform_counts :
    (s : ControlServer) (l : Lane) (e : Effect) (es : List Effect) (now : ℕ) (works : Bool) (r : ℕ)
    → l.todo ≡ e ∷ es
    → returning es r ≡ 0
    → total (perform s l e es now works) r ≡ total (s, l) r
unfolding perform requeue clean_up finish returning answer answered queued
perform_counts s l (requeues c) es now works r h k = ground (arith, queued-append s.commands c r)
perform_counts s l e es now works r h k = ground arith

message_tidy :
    (s : ControlServer) (l : Lane) (f : Frame) (now : ℕ) (t : MessageType)
    → l.todo ≡ []
    → is_tidy (on_message s l f now t).1.todo ≡ true
unfolding on_message on_started accept_started on_heartbeat on_stopped on_status on_metrics
    on_suspend on_error try_transition is_tidy
message_tidy s l f now MessageType.started h = ground arith
message_tidy s l f now MessageType.heartbeat h = ground arith
message_tidy s l f now MessageType.stopped h = ground arith
message_tidy s l f now MessageType.status h = ground arith
message_tidy s l f now MessageType.metrics h = ground arith
message_tidy s l f now MessageType.suspend h = ground arith
message_tidy s l f now MessageType.error h = ground arith
message_tidy s l f now t h = ground arith

pub select_tidy :
    (s : ControlServer) (l : Lane) (m : Move) → l.todo ≡ [] → is_tidy (select s l m).1.todo ≡ true
unfolding select on_tick on_deadline on_received take_command on_command is_tidy
select_tidy s l (receives (received f) now) h =
    ground (arith, message_tidy s l f now f.message_type h)
select_tidy s l m h = ground arith

pub perform_tidy :
    (s : ControlServer) (l : Lane) (e : Effect) (es : List Effect) (now : ℕ) (works : Bool)
    → is_calm es ≡ true
    → is_tidy (perform s l e es now works).1.todo ≡ true
unfolding perform requeue clean_up finish is_tidy
perform_tidy s l (requeues c) es now works k = ground (arith, calm_tidy es k)
perform_tidy s l e es now works k = ground (arith, calm_tidy es k)
