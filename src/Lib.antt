-- ===== src/Lib.antt =====
-- The wired relay's host program: a model of the Rust crate `gnirehtet-vd`, in
-- host-rust/crates/gnirehtet-vd/src, and what is proved of it.
--
-- A headset on a USB cable reaches the network through the host. The Android service and the host keep a
-- control lane, over which they speak GNR4 frames (Protocol); the host follows the session in a state
-- machine (HostState), which the handlers of control connections share (Control). Two TCP lanes carry SOCKS
-- connections (Socks) and framed UDP datagrams (Udp) to the host's relay, whose flows may run only while a gate is open (Relay): the gate follows the carrier (the ADB
-- mappings) and the control lane. A monitor rebuilds the ADB mappings after a resume of the host or a
-- reconnection of the cable (Recovery) by transactions of adb commands (Adb), and restarts an Android service
-- that stays silent on an awake headset (Liveness).
--
-- Parts and files:
-- Protocol: protocol.rs. Types: `SessionId`, `MessageType`, `Frame`, `ProtocolError`. Frame: `Frame::encode`,
--   `Frame::decode`. Frame/Stream: `Frame::read_from`, over a reader that is a parameter with the documented
--   behaviour of tokio's `read_exact`. Metrics: `AndroidMetricsV1`. Session: the text of a `SessionId`.
-- HostState: state.rs. Machine: `StateMachine`, one function per method; Run: sequences of calls.
-- Relay: Gate is `RelayGate` of socks.rs; Controller is `RelayGateController` of runtime.rs.
-- Udp: udp.rs. Endpoint: `Endpoint`, `encode_endpoint`, `decode_endpoint`. Frame: `HevUdpFrame`. Budget:
--   `QueueBudget` and `QueueReservation`, one step per atomic operation. Writer: the batches of the
--   writer task of `relay_fwd_udp`.
-- Liveness: `AndroidLiveness` and `android_restart_backoff` of runtime.rs.
-- Recovery: the transport recovery of `AdbHealthMonitor` of runtime.rs. State: the fields; Status: `update_status`; Monitor:
--   the operations; Run: the monitor's task, timers, the control lane and late writes of the status as steps in any
--   order.
-- Track: `TrackDevicesDecoder` of runtime.rs, which reads the output of `adb track-devices`. Text: lines and
--   their parser; Decoder: `push`, turn by turn.
-- Adb: `AdbController` of adb.rs, over an executor of adb commands, with its clock, that is a parameter. Actions:
--   fallible actions on the executor's world; Parse: the readers of outputs; Commands: single commands,
--   `remove_all_mappings`, `verify_vpn_closed` and `require_device`; Status: `AndroidVpnStatus`; Transactions: `start`, `stop`, repair,
--   reinstallation and installation.
-- Monitor: the task of `AdbHealthMonitor` in runtime.rs, which ties the parts together. Changes: what tasks do to the
--   monitor's state; Shared: that state with the gate and the control server, and the observers of `HostRuntime::run`;
--   Host: a step, a wait and a call of adb; Reconcile: `reconcile`; Rebuild: `recover_transport`; Supervise:
--   `supervise_android` and `restart_android`; Arms and Loop: `run`; Admin: `AdminServer::handle`. Keeps carries any
--   invariant of the shared state through all of that.
-- Lifecycle: `start`, `stop` and `repair` of main.rs. Platform: the files, the processes and the administration pipe,
--   which are parameters; Reached: what a command does by these alone; StartRuns and StopRuns: what the outcomes say.
-- Control: control.rs. Types: the state that the handlers share, and a handler's own; Select: the arms of the
--   `select!` of `handle`, each what it does under the lock of the state machine; Connection: the handshake,
--   the effects behind an arm, one at a time, and the end of a connection; Run: any number of handlers, the
--   requesters and the carrier, in any order. Requests and Accounts count the stop requests; Bypass: the two
--   ways a connection ends.
-- Socks: the rest of socks.rs. Request: `SocksRequest::decode` and the policy; Flows: `VirtualDesktopFlowMonitor`;
--   Group: `StreamerCandidates` and `CandidateGroup`; Settle: `settle_candidates`, over what the sockets say, turn by
--   turn; Heard: what its reads deliver; Observation: `FlowObservation`.
-- Diagnostics: diagnostics.rs. Histogram: `LatencyHistogram`; Rotation: `RotatingWriter`, over files whose calls the
--   system may refuse.
-- Tray: Broker is `BrokerGate` and Reconcile the decisions of the notification-area icon, of main.rs.
-- Common: bytes, words, lists, UTF-8 and fallible results that the parts share. Tests: runs at concrete
--   inputs, and the theorems at concrete inputs.
--
-- Conventions. A method on `&mut self` is a function from the state to the state; `Result` is
-- `Outcome`, whose third case is a panic, so that an index out of bounds is one; in Adb, where nothing
-- panics, it is `Result`, behind the new state of the executor. A lock-protected
-- operation is one step, and what an async function does behind it (a publication, a write, which may
-- fail) is a step of its own. Bytes and words are natural numbers with their bounds as hypotheses where
-- they matter, wrap-around and saturation written out; `usize` has 64 bits. `Instant` and
-- `Duration` are numbers of nanoseconds. Two loops take fuel. Track's `push` takes two more than
-- the bytes that it holds, since each turn takes a byte or chooses the mode. `verify_vpn_closed` takes the
-- time to its deadline and two more: with a clock that does not run backwards and a sleep that passes its
-- time, each round is a unit of time at least. A theorem for each says that the fuel does not run out.
-- Every other loop is structural on its input. A message of an error is a constructor with what it quotes.
--
-- In Monitor every `.await` is a point at which the other tasks may act: the model takes a list of what they do for each
-- wait, which the theorems quantify over, and the events of the `select!` likewise; the operation lock is such a wait. A
-- blocking call of adb, with all its commands, is one action on the executor's world, and what the others do during it
-- comes behind it; its worker task does not panic. Between two waits the task's steps follow one another, although the
-- runtime has two workers: no theorem is about a stop that begins within a call or right before it. A change of the
-- monitor that writes the recovery and then the status, each under its lock, is one step in Monitor; in Recovery the
-- status may be written at any time, with anything, and nothing is claimed of it. In Lifecycle the polls of the status file are the list of what is read before the deadline.
--
-- Not modelled: sockets, child processes and Windows calls; the records that are written to the diagnostics, the state
-- file, and notifications, which change no modelled state; the copying of bytes between sockets; the framing of the
-- administration and broker pipes, whose messages are JSON of serde_json; the argument parsing of the command line; the
-- Kotlin, Java and C code.
pub mod Common
pub mod Protocol
pub mod HostState
pub mod Relay
pub mod Udp
pub mod Liveness
pub mod Recovery
pub mod Track
pub mod Adb
pub mod Control
pub mod Monitor
pub mod Lifecycle
pub mod Socks
pub mod Diagnostics
pub mod Tray
pub mod Tests
