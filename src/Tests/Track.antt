-- ===== src/Tests/Track.antt =====
-- The output of `adb track-devices` at concrete pieces.
use quest_vd_wired.Common.{
  panic, ℕ, ◌≡◌, ◌≢◌, refl, true, false, some, none, List, [], ◌∷◌, ◌++◌, ok, is_utf8,
}
use quest_vd_wired.Protocol.Session.{is_hex}
use quest_vd_wired.Track.Decoder.{
  TrackDevicesDecoder, unknown, framed, push, push_loop, turn, prepend, turn_unknown, turn_framed,
}
use quest_vd_wired.Track.Chunks.{push-append}
use quest_vd_wired.Track.Updates.{push_ends}

abbrev fresh_decoder : TrackDevicesDecoder
fresh_decoder = record {
  mode = unknown;
  buffer = [];
  text = record { in_snapshot = false; device_available = false };
  last_update = none;
}

-- "0009" and "q\tdevice\n", in two pieces.
abbrev first_piece : List ℕ
first_piece = b'0' ∷ b'0' ∷ b'0' ∷ b'9' ∷ b'q' ∷ 9 ∷ b'd' ∷ []

abbrev second_piece : List ℕ
second_piece = b'e' ∷ b'v' ∷ b'i' ∷ b'c' ∷ b'e' ∷ b'\n' ∷ []

abbrev waiting : TrackDevicesDecoder
waiting = record fresh_decoder { mode = framed; buffer = first_piece }

abbrev available : TrackDevicesDecoder
available = record fresh_decoder { mode = framed; buffer = []; last_update = some true }

first_pushed : push fresh_decoder first_piece ≡ some (ok (waiting, []))
unfolding push push_loop turn turn_unknown turn_framed is_hex
first_pushed = refl

second_pushed : push waiting second_piece ≡ some (ok (available, true ∷ []))
unfolding push push_loop turn turn_framed is_utf8 is_hex
second_pushed = refl

push-append_example :
    push fresh_decoder (first_piece ++ second_piece) ≡ prepend [] (push waiting second_piece)
push-append_example = push-append fresh_decoder waiting [] first_piece second_piece first_pushed

push_ends_example : (push waiting second_piece ≢ none) × (push waiting second_piece ≢ some panic)
push_ends_example = push_ends waiting second_piece
