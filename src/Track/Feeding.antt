-- ===== src/Track/Feeding.antt =====
-- A turn of the decoder's loop that goes on does the same when more bytes follow.
use quest_vd_wired.Common.{
  sym, ℕ, zero, suc, ◌+◌, ◌≡◌, ◌≤◌, refl, Bool, some, List, [], ◌∷◌, ◌++◌, ok, arith, length, take,
  drop, length-drop, length-append, Outcome-cases, Option-cases, inl, inr, ap, ◌∙◌,
}
use quest_vd_wired.Track.Slices.{plain_framed, turn_framed-plain}
use quest_vd_wired.Track.Decoder.{
  TrackDevicesDecoder, TrackDevicesMode, unknown, framed, text_lines, goes_on, note_update,
  checked_length, turn_unknown, turn_framed, turn_text, split_line, turn, parse_track_snapshot,
  turn_in,
}

abbrev pub feed : TrackDevicesDecoder → List ℕ → TrackDevicesDecoder
feed d ys = record d { buffer = d.buffer ++ ys }

take-more : (n : ℕ) (xs ys : List ℕ) → n ≤ length xs → take n (xs ++ ys) ≡ take n xs
take-more zero xs ys h = refl
take-more (suc n) [] ys h = absurd (omega arith)
take-more (suc n) (x ∷ xs) ys h = ap (λ l. x ∷ l) (take-more n xs ys (omega arith))

drop-more : (n : ℕ) (xs ys : List ℕ) → n ≤ length xs → drop n (xs ++ ys) ≡ drop n xs ++ ys
drop-more zero xs ys h = refl
drop-more (suc n) [] ys h = absurd (omega arith)
drop-more (suc n) (x ∷ xs) ys h = drop-more n xs ys (omega arith)

split_line-more :
    (bs line behind ys : List ℕ)
    → split_line bs ≡ some (line, behind)
    → split_line (bs ++ ys) ≡ some (line, behind ++ ys)
unfolding split_line
split_line-more [] line behind ys h = cc
split_line-more (b ∷ bs) line behind ys h = elim (Option-cases (split_line bs)) [
  | inl e ↦ ground arith
  | inr ((l, r), e) ↦ ground (arith, split_line-more bs l r ys e)
]

-- A turn that goes on goes on in the same way when more bytes are there.
abbrev pub GoesOn : TrackDevicesDecoder → TrackDevicesDecoder → List Bool → List ℕ → Type 0
GoesOn d d' us ys = turn (feed d ys) ≡ ok (goes_on (feed d' ys) us)

unknown-feed :
    (d d' : TrackDevicesDecoder) (us : List Bool) (ys : List ℕ)
    → turn_unknown d ≡ ok (goes_on d' us)
    → turn_unknown (feed d ys) ≡ ok (goes_on (feed d' ys) us)
unfolding turn_unknown
unknown-feed d d' us ys h = elim (Outcome-cases (checked_length (take 4 d.buffer))) [
  | inl (n, e) ↦ ground (arith, take-more 4 d.buffer ys, length-append d.buffer ys)
  | inr (inl (x, e)) ↦ ground (arith, take-more 4 d.buffer ys, length-append d.buffer ys)
  | inr (inr e) ↦ ground (arith, take-more 4 d.buffer ys, length-append d.buffer ys)
]

text-feed :
    (d d' : TrackDevicesDecoder) (us : List Bool) (ys : List ℕ)
    → turn_text d ≡ ok (goes_on d' us)
    → turn_text (feed d ys) ≡ ok (goes_on (feed d' ys) us)
unfolding turn_text note_update
text-feed d d' us ys h = elim (Option-cases (split_line d.buffer)) [
  | inl e ↦ absurd (ground arith)
  | inr ((l, r), e) ↦ ground (arith, split_line-more d.buffer l r ys e)
]

-- A framed turn that goes on has a whole frame before it.
record HasFrame (d d' : TrackDevicesDecoder) (us : List Bool) (n : ℕ) (available : Bool)
    : Type 0 where
  has_length : 4 ≤ length d.buffer
  length_ok : checked_length (take 4 d.buffer) ≡ ok n
  has_payload : 4 + n ≤ length d.buffer
  payload_ok : parse_track_snapshot (take n (drop 4 d.buffer)) ≡ ok available
  noted : note_update (record d { buffer = drop (4 + n) d.buffer }) available ≡ goes_on d' us

turn_framed-HasFrame :
    (d d' : TrackDevicesDecoder) (us : List Bool)
    → plain_framed d ≡ ok (goes_on d' us)
    → (n : ℕ) × (available : Bool) × HasFrame d d' us n available
turn_framed-HasFrame d d' us h = elim (Outcome-cases (checked_length (take 4 d.buffer))) [
  | inl (n, e) ↦ elim (Outcome-cases (parse_track_snapshot (take n (drop 4 d.buffer)))) [
    | inl (a, q) ↦ (n, a, ground arith)
    | inr (inl (x, q)) ↦ absurd (ground arith)
    | inr (inr q) ↦ absurd (ground arith)
  ]
  | inr (inl (x, e)) ↦ absurd (ground arith)
  | inr (inr e) ↦ absurd (ground arith)
]

turn_framed-goes_on :
    (d d' : TrackDevicesDecoder) (us : List Bool) (n : ℕ) (available : Bool)
    → HasFrame d d' us n available
    → plain_framed d ≡ ok (goes_on d' us)
turn_framed-goes_on d d' us n available f = ground arith

note-feed :
    (d d' : TrackDevicesDecoder) (us : List Bool) (available : Bool) (ys : List ℕ)
    → note_update d available ≡ goes_on d' us
    → note_update (feed d ys) available ≡ goes_on (feed d' ys) us
unfolding note_update
note-feed d d' us available ys h = ground arith

framed-feed :
    (d d' : TrackDevicesDecoder) (us : List Bool) (ys : List ℕ)
    → turn_framed d ≡ ok (goes_on d' us)
    → turn_framed (feed d ys) ≡ ok (goes_on (feed d' ys) us)
framed-feed d d' us ys h =
    let (n, available, f) = turn_framed-HasFrame d d' us (sym (turn_framed-plain d) ∙ h) in
    let b = d.buffer in
    let long = length-append b ys in
    let front = take-more 4 b ys f.has_length in
    let rest = drop-more 4 b ys f.has_length in
    let payload =
      ap (take n) rest
      ∙ take-more n (drop 4 b) ys (omega (arith, length-drop 4 b, f.has_payload)) in
    let behind = drop-more (4 + n) b ys f.has_payload in
    turn_framed-plain (feed d ys)
    ∙ turn_framed-goes_on (feed d ys) (feed d' ys) us n available (record {
      has_length = omega (arith, f.has_length);
      length_ok = ap checked_length front ∙ f.length_ok;
      has_payload = omega (arith, f.has_payload);
      payload_ok = ap parse_track_snapshot payload ∙ f.payload_ok;
      noted =
          ap (λ l. note_update (record d { buffer = l }) available) behind
          ∙ note-feed (record d { buffer = drop (4 + n) b }) d' us available ys f.noted;
    })

turn_in-feed :
    (m : TrackDevicesMode) (d d' : TrackDevicesDecoder) (us : List Bool) (ys : List ℕ)
    → turn_in m d ≡ ok (goes_on d' us)
    → turn_in m (feed d ys) ≡ ok (goes_on (feed d' ys) us)
turn_in-feed unknown d d' us ys h = unknown-feed d d' us ys h
turn_in-feed framed d d' us ys h = framed-feed d d' us ys h
turn_in-feed text_lines d d' us ys h = text-feed d d' us ys h

pub turn-feed :
    (d d' : TrackDevicesDecoder) (us : List Bool) (ys : List ℕ)
    → turn d ≡ ok (goes_on d' us)
    → GoesOn d d' us ys
unfolding turn
turn-feed d d' us ys h = turn_in-feed d.mode d d' us ys h
