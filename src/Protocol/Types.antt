-- ===== src/Protocol/Types.antt =====
-- The data types of protocol.rs, and the numbering of the message types.
use quest_vd_wired.Common.{
  ℕ, ◌≡◌, refl, List, [], ◌∷◌, Outcome, ok, err, panic, ◌==◌, if◌then◌else◌, arith, length,
  AreBytes,
}

-- `[u8; 16]`: `IsSession` says what the Rust type does.
pub record SessionId : Type 0 where
  pub bytes : List ℕ

pub record IsSession (s : SessionId) : Type 0 where
  pub sixteen : length s.bytes ≡ 16
  pub are_bytes : AreBytes s.bytes

pub data MessageType : Type 0 where
  hello hello_ack started heartbeat stop stopped status error suspend suspended metrics :
      MessageType

pub data ProtocolError : Type 0 where
  bad_magic : ProtocolError
  invalid_session_id : ProtocolError
  payload_too_large : ℕ → ProtocolError
  truncated_header : ℕ → ProtocolError
  truncated_payload : ℕ → ℕ → ProtocolError
  trailing_bytes : ℕ → ProtocolError
  unknown_message_type : ℕ → ProtocolError
  unsupported_version : ℕ → ProtocolError
  io : ProtocolError

pub record Frame : Type 0 where
  pub message_type : MessageType
  pub session_id : SessionId
  pub payload : List ℕ

-- `b"GNR4"`
abbrev pub magic : List ℕ
magic = b'G' ∷ b'N' ∷ b'R' ∷ b'4' ∷ []

abbrev pub version : ℕ
version = 4

abbrev pub header_len : ℕ
header_len = 28

abbrev pub max_payload_len : ℕ
max_payload_len = 65536

-- `self.message_type as u16`
abbrev pub to_u16 : MessageType → ℕ
to_u16 hello = 1
to_u16 hello_ack = 2
to_u16 started = 3
to_u16 heartbeat = 4
to_u16 stop = 5
to_u16 stopped = 6
to_u16 status = 7
to_u16 error = 8
to_u16 suspend = 9
to_u16 suspended = 10
to_u16 metrics = 11

-- `MessageType::try_from`
unfoldable pub try_from : ℕ → Outcome ProtocolError MessageType
try_from value =
    if value == 1
    then ok hello
    else if value == 2
    then ok hello_ack
    else if value == 3
    then ok started
    else if value == 4
    then ok heartbeat
    else if value == 5
    then ok stop
    else if value == 6
    then ok stopped
    else if value == 7
    then ok status
    else if value == 8
    then ok error
    else if value == 9
    then ok suspend
    else if value == 10
    then ok suspended
    else if value == 11
    then ok metrics
    else err (unknown_message_type value)

pub try_from-to_u16 : (m : MessageType) → try_from (to_u16 m) ≡ ok m
unfolding try_from
try_from-to_u16 hello = refl
try_from-to_u16 _ = refl

pub try_from-ok : (n : ℕ) (m : MessageType) → try_from n ≡ ok m → to_u16 m ≡ n
unfolding try_from
try_from-ok n m h = ground arith

pub try_from-ne-panic : (n : ℕ) → try_from n ≡ panic → ⊥
unfolding try_from
try_from-ne-panic n h = ground arith
