-- ===== src/Socks/Observation.antt =====
-- `FlowObservation`: which side of a flow ended first, and how.
use quest_vd_wired.Common.{Option, none, some}

pub data FlowEndpoint : Type 0 where
  quest streamer : FlowEndpoint

pub data FlowTerminalEvent : Type 0 where
  read_eof read_error write_error : FlowTerminalEvent

pub record FlowTerminal : Type 0 where
  pub endpoint : FlowEndpoint
  pub event : FlowTerminalEvent

-- The first event stays.
abbrev pub record_terminal :
    Option FlowTerminal → FlowEndpoint → FlowTerminalEvent → Option FlowTerminal
record_terminal (some t) endpoint event = some t
record_terminal none endpoint event = some (record { endpoint = endpoint; event = event })
