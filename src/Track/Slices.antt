-- ===== src/Track/Slices.antt =====
-- The slices of the decoder's buffer are never out of bounds.
use quest_vd_wired.Common.{
  ℕ, ◌+◌, ◌-◌, ◌≡◌, ◌≤◌, Outcome, ok, ◌>>=◌, arith, length, take, drop, if◌then◌else◌, ltb, slice,
  List, inl, inr, Outcome-cases,
}
use quest_vd_wired.Track.Decoder.{
  TrackDevicesDecoder, TrackDevicesDecodeError, Turn, returns, turn_framed, checked_length,
  take_frame, parse_track_snapshot, note_update,
}

slice-take :
    (from to : ℕ) (xs : List ℕ)
    → from ≤ to
    → to ≤ length xs
    → slice {E = TrackDevicesDecodeError} xs from to ≡ ok (take (to - from) (drop from xs))
slice-take from to xs h k = ground arith

abbrev pub plain_frame : TrackDevicesDecoder → ℕ → Outcome TrackDevicesDecodeError Turn
plain_frame d n =
    parse_track_snapshot (take n (drop 4 d.buffer))
    >>= (λ available. ok (note_update (record d { buffer = drop (4 + n) d.buffer }) available))

-- `turn_framed` where the slices are plain.
abbrev pub plain_framed : TrackDevicesDecoder → Outcome TrackDevicesDecodeError Turn
plain_framed d =
    if ltb (length d.buffer) 4
    then ok (returns d)
    else (checked_length (take 4 d.buffer)
        >>= (λ n. if ltb (length d.buffer) (4 + n) then ok (returns d) else plain_frame d n))

take_frame-plain :
    (d : TrackDevicesDecoder) (n : ℕ) → 4 + n ≤ length d.buffer → take_frame d n ≡ plain_frame d n
unfolding take_frame
take_frame-plain d n h = elim (Outcome-cases (parse_track_snapshot (take n (drop 4 d.buffer)))) [
  | inl (a, e) ↦ ground (arith, slice-take 4 (4 + n) d.buffer, slice-take 0 (4 + n) d.buffer)
  | inr (inl (x, e)) ↦ ground (arith, slice-take 4 (4 + n) d.buffer)
  | inr (inr e) ↦ ground (arith, slice-take 4 (4 + n) d.buffer)
]

pub turn_framed-plain : (d : TrackDevicesDecoder) → turn_framed d ≡ plain_framed d
unfolding turn_framed
turn_framed-plain d = elim (Outcome-cases (checked_length (take 4 d.buffer))) [
  | inl (n, e) ↦ ground (arith, slice-take 0 4 d.buffer, take_frame-plain d n)
  | inr (inl (x, e)) ↦ ground (arith, slice-take 0 4 d.buffer)
  | inr (inr e) ↦ ground (arith, slice-take 0 4 d.buffer)
]
