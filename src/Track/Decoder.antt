-- ===== src/Track/Decoder.antt =====
-- `TrackDevicesDecoder::push`. After an error the caller drops the decoder, so an error has no state.
use quest_vd_wired.Common.{
  lines, any_line, ℕ, zero, suc, ◌+◌, ◌-◌, ◌*◌, Bool, true, false, ◌&&◌, ◌||◌, not, ltb, leb, ◌==◌,
  if◌then◌else◌, Option, none, some, List, [], ◌∷◌, ◌++◌, Outcome, ok, err, panic, ◌>>=◌, ◌>>◌,
  reject_if, slice, is_utf8, length, take, drop,
}
use quest_vd_wired.Protocol.Session.{is_hex}
use quest_vd_wired.Track.Text.{TrackDevicesTextParser, is_device_line, push_line}

pub data TrackDevicesMode : Type 0 where
  unknown framed text_lines : TrackDevicesMode

pub data TrackDevicesDecodeError : Type 0 where
  invalid_length : TrackDevicesDecodeError
  oversized : ℕ → TrackDevicesDecodeError
  invalid_utf8 : TrackDevicesDecodeError

pub record TrackDevicesDecoder : Type 0 where
  pub mode : TrackDevicesMode
  pub buffer : List ℕ
  pub text : TrackDevicesTextParser
  pub last_update : Option Bool

-- `TrackDevicesDecoder::default()`
abbrev pub new_decoder : TrackDevicesDecoder
new_decoder = record {
  mode = unknown;
  buffer = [];
  text = record { in_snapshot = false; device_available = false };
  last_update = none;
}

abbrev pub max_track_devices_payload : ℕ
max_track_devices_payload = 16 * 1024

unfoldable pub all_hex : List ℕ → Bool
all_hex [] = true
all_hex (b ∷ bs) = is_hex b && all_hex bs

-- The value of a hexadecimal digit.
abbrev pub hex_value : ℕ → ℕ
hex_value b = if leb b b'9' then b - b'0' else if leb b b'F' then b - b'A' + 10 else b - b'a' + 10

unfoldable pub from_hex : ℕ → List ℕ → ℕ
from_hex value [] = value
from_hex value (b ∷ bs) = from_hex (value * 16 + hex_value b) bs

-- Four hexadecimal digits are ASCII, and their value is a `usize`.
unfoldable pub parse_track_length : List ℕ → Outcome TrackDevicesDecodeError ℕ
unfolding all_hex from_hex
parse_track_length bytes = do
  reject_if (not (length bytes == 4) || not (all_hex bytes)) invalid_length
  ok (from_hex 0 bytes)

unfoldable pub parse_track_snapshot : List ℕ → Outcome TrackDevicesDecodeError Bool
unfolding lines is_device_line
parse_track_snapshot payload = do
  reject_if (not (is_utf8 payload)) invalid_utf8
  ok (any_line is_device_line (lines payload))

-- What one turn of the loop does: it returns, or it goes on with the updates that it pushed.
pub data Turn : Type 0 where
  returns : TrackDevicesDecoder → Turn
  goes_on : TrackDevicesDecoder → List Bool → Turn

abbrev pub is_last : Option Bool → Bool → Bool
is_last none available = false
is_last (some true) available = available
is_last (some false) available = not available

unfoldable pub note_update : TrackDevicesDecoder → Bool → Turn
note_update d available =
    if is_last d.last_update available
    then goes_on d []
    else goes_on (record d { last_update = some available }) (available ∷ [])

abbrev pub note_some_update : TrackDevicesDecoder → Option Bool → Turn
note_some_update d none = goes_on d []
note_some_update d (some available) = note_update d available

unfoldable pub checked_length : List ℕ → Outcome TrackDevicesDecodeError ℕ
unfolding parse_track_length
checked_length prefix = do
  length ← parse_track_length prefix
  reject_if (ltb max_track_devices_payload length) (oversized length)
  ok length

-- The mode is chosen from the first four bytes, and the loop goes on in it.
unfoldable pub turn_unknown : TrackDevicesDecoder → Outcome TrackDevicesDecodeError Turn
unfolding all_hex checked_length
turn_unknown d =
    if ltb (length d.buffer) 4
    then ok (returns d)
    else if all_hex (take 4 d.buffer)
    then checked_length (take 4 d.buffer) >>= (λ n. ok (goes_on (record d { mode = framed }) []))
    else ok (goes_on (record d { mode = text_lines }) [])

-- A frame of `n` bytes is parsed, and drained from the buffer: both panic if the buffer is shorter.
unfoldable pub take_frame : TrackDevicesDecoder → ℕ → Outcome TrackDevicesDecodeError Turn
unfolding parse_track_snapshot note_update
take_frame d n = do
  payload ← slice d.buffer 4 (4 + n)
  available ← parse_track_snapshot payload
  _ ← slice d.buffer 0 (4 + n)
  ok (note_update (record d { buffer = drop (4 + n) d.buffer }) available)

unfoldable pub turn_framed : TrackDevicesDecoder → Outcome TrackDevicesDecodeError Turn
unfolding checked_length take_frame
turn_framed d =
    if ltb (length d.buffer) 4
    then ok (returns d)
    else (slice d.buffer 0 4
        >>= checked_length
        >>= (λ n. if ltb (length d.buffer) (4 + n) then ok (returns d) else take_frame d n))

-- The bytes before the first newline, and those behind it.
unfoldable pub split_line : List ℕ → Option (List ℕ × List ℕ)
split_line [] = none
split_line (b ∷ bs) =
    let rest = split_line bs in
    if b == b'\n'
    then some ([], bs)
    else elim rest [ none ↦ none | some (line, behind) ↦ some (b ∷ line, behind) ]

-- `if line.last() == Some(&b'\r') { line.pop(); }`
unfoldable pub pop_return : List ℕ → List ℕ
pop_return [] = []
pop_return (b ∷ []) = if b == b'\r' then [] else b ∷ []
pop_return (b ∷ c ∷ bs) = b ∷ pop_return (c ∷ bs)

-- One turn of the inner loop over the lines, or what follows it.
unfoldable pub turn_text : TrackDevicesDecoder → Outcome TrackDevicesDecodeError Turn
unfolding split_line pop_return push_line
turn_text d = elim (split_line d.buffer) [
  | none ↦
      if ltb max_track_devices_payload (length d.buffer)
      then err (oversized (length d.buffer))
      else ok (returns d)
  | some (raw, behind) ↦
      let line = pop_return raw in
      if not (is_utf8 line)
      then err invalid_utf8
      else let (parser, update) = push_line d.text line in
        ok (note_some_update (record d { buffer = behind; text = parser }) update)
]

abbrev pub turn_in : TrackDevicesMode → TrackDevicesDecoder → Outcome TrackDevicesDecodeError Turn
turn_in unknown d = turn_unknown d
turn_in framed d = turn_framed d
turn_in text_lines d = turn_text d

unfoldable pub turn : TrackDevicesDecoder → Outcome TrackDevicesDecodeError Turn
turn d = turn_in d.mode d

abbrev pub Pushed : Type 0
Pushed = Outcome TrackDevicesDecodeError (TrackDevicesDecoder × List Bool)

abbrev pub with_updates : List Bool → Pushed → Pushed
with_updates us (ok (d, vs)) = ok (d, us ++ vs)
with_updates us (err e) = err e
with_updates us panic = panic

abbrev pub prepend : List Bool → Option Pushed → Option Pushed
prepend us none = none
prepend us (some r) = some (with_updates us r)

-- What follows a turn; the last argument is the rest of the loop.
abbrev pub after_turn :
    Outcome TrackDevicesDecodeError Turn → (TrackDevicesDecoder → Option Pushed) → Option Pushed
after_turn (ok (returns d)) rest = some (ok (d, []))
after_turn (ok (goes_on d us)) rest = prepend us (rest d)
after_turn (err e) rest = some (err e)
after_turn panic rest = some panic

-- The loop on fuel; `none` is that the fuel ran out.
unfoldable pub push_loop : ℕ → TrackDevicesDecoder → Option Pushed
push_loop zero d = none
push_loop (suc fuel) d = after_turn (turn d) (push_loop fuel)

unfoldable pub push : TrackDevicesDecoder → List ℕ → Option Pushed
push d bytes =
    push_loop (length d.buffer + length bytes + 2) (record d { buffer = d.buffer ++ bytes })
