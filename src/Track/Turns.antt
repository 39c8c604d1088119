-- ===== src/Track/Turns.antt =====
-- Each turn of the decoder's loop takes something away, so the loop ends.
use quest_vd_wired.Common.{
  ℕ, zero, suc, ◌+◌, ◌≡◌, ◌≢◌, ◌≤◌, ◌<◌, refl, sym, Bool, none, some, List, [], ◌∷◌, ◌++◌, Outcome,
  ok, err, panic, ◌⊎◌, arith, length, take, drop, length-drop, length-append, Outcome-cases,
  Option-cases, inl, inr, ap, ◌∙◌,
}
use quest_vd_wired.Track.Slices.{plain_framed, turn_framed-plain}
use quest_vd_wired.Track.Decoder.{
  TrackDevicesDecoder, TrackDevicesMode, unknown, framed, text_lines, Turn, returns, goes_on,
  note_update, checked_length, turn_unknown, turn_text, split_line, turn, push_loop, push, Pushed,
  parse_track_snapshot, with_updates, turn_in, after_turn, prepend, TrackDevicesDecodeError,
}

-- The bytes that are left, and one more while the mode is open.
abbrev pub weight_of : TrackDevicesMode → ℕ
weight_of unknown = 1
weight_of _ = 0

abbrev pub weight : TrackDevicesDecoder → ℕ
weight d = length d.buffer + weight_of d.mode

mode-light : (m : TrackDevicesMode) → weight_of m ≤ 1
mode-light unknown = omega arith
mode-light m = omega arith

pub weight-append :
    (d : TrackDevicesDecoder) (bytes : List ℕ)
    → weight (record d { buffer = d.buffer ++ bytes }) < length d.buffer + length bytes + 2
weight-append d bytes = omega (arith, length-append d.buffer bytes, mode-light d.mode)

split_line-shorter :
    (bs line behind : List ℕ) → split_line bs ≡ some (line, behind) → length behind < length bs
unfolding split_line
split_line-shorter [] line behind h = cc
split_line-shorter (b ∷ bs) line behind h = elim (Option-cases (split_line bs)) [
  | inl e ↦ ground arith
  | inr ((l, r), e) ↦ ground (arith, split_line-shorter bs l r e)
]

unknown-lighter :
    (d d' : TrackDevicesDecoder) (us : List Bool)
    → d.mode ≡ unknown
    → turn_unknown d ≡ ok (goes_on d' us)
    → weight d' < weight d
unfolding turn_unknown
unknown-lighter d d' us m h = elim (Outcome-cases (checked_length (take 4 d.buffer))) [
  | inl (n, e) ↦ ground arith
  | inr (inl (x, e)) ↦ ground arith
  | inr (inr e) ↦ ground arith
]

framed-lighter :
    (d d' : TrackDevicesDecoder) (us : List Bool)
    → d.mode ≡ framed
    → plain_framed d ≡ ok (goes_on d' us)
    → weight d' < weight d
unfolding note_update
framed-lighter d d' us m h = elim (Outcome-cases (checked_length (take 4 d.buffer))) [
  | inl (n, e) ↦ elim (Outcome-cases (parse_track_snapshot (take n (drop 4 d.buffer)))) [
    | inl (a, q) ↦ ground (arith, length-drop (4 + n) d.buffer)
    | inr (inl (x, q)) ↦ ground arith
    | inr (inr q) ↦ ground arith
  ]
  | inr (inl (x, e)) ↦ ground arith
  | inr (inr e) ↦ ground arith
]

text-lighter :
    (d d' : TrackDevicesDecoder) (us : List Bool)
    → d.mode ≡ text_lines
    → turn_text d ≡ ok (goes_on d' us)
    → weight d' < weight d
unfolding turn_text note_update
text-lighter d d' us m h = elim (Option-cases (split_line d.buffer)) [
  | inl e ↦ ground arith
  | inr ((l, r), e) ↦ ground (arith, split_line-shorter d.buffer l r e)
]

turn_in-lighter :
    (m : TrackDevicesMode) (d d' : TrackDevicesDecoder) (us : List Bool)
    → d.mode ≡ m
    → turn_in m d ≡ ok (goes_on d' us)
    → weight d' < weight d
turn_in-lighter unknown d d' us m h = unknown-lighter d d' us m h
turn_in-lighter framed d d' us m h = framed-lighter d d' us m (sym (turn_framed-plain d) ∙ h)
turn_in-lighter text_lines d d' us m h = text-lighter d d' us m h

pub turn-lighter :
    (d d' : TrackDevicesDecoder) (us : List Bool)
    → turn d ≡ ok (goes_on d' us)
    → weight d' < weight d
unfolding turn
turn-lighter d d' us h = turn_in-lighter d.mode d d' us refl h

-- What a turn can be, with the equation.
pub turn-cases :
    (d : TrackDevicesDecoder)
    → ((d' : TrackDevicesDecoder) × (turn d ≡ ok (returns d')))
      ⊎ ((d' : TrackDevicesDecoder) × (us : List Bool) × (turn d ≡ ok (goes_on d' us)))
      ⊎ ((e : TrackDevicesDecodeError) × (turn d ≡ err e))
      ⊎ (turn d ≡ panic)
turn-cases d = elim (Outcome-cases (turn d)) [
  | inl (returns d', e) ↦ inl (d', e)
  | inl (goes_on d' us, e) ↦ inr (inl (d', us, e))
  | inr (inl (x, e)) ↦ inr (inr (inl (x, e)))
  | inr (inr e) ↦ inr (inr (inr e))
]

pub loop-turn :
    (fuel : ℕ) (d : TrackDevicesDecoder) (o : Outcome TrackDevicesDecodeError Turn)
    → turn d ≡ o
    → push_loop (suc fuel) d ≡ after_turn o (push_loop fuel)
unfolding push_loop
loop-turn fuel d o e = ap (λ t. after_turn t (push_loop fuel)) e

-- Where every greater fuel gives the same outcome.
abbrev pub Settled : TrackDevicesDecoder → Pushed → Type 0
Settled d r = (fuel : ℕ) → weight d < fuel → push_loop fuel d ≡ some r

settle :
    (d : TrackDevicesDecoder) (r : Pushed)
    → ((fuel : ℕ) → weight d ≤ fuel → push_loop (suc fuel) d ≡ some r)
    → Settled d r
settle d r h zero lt = absurd (omega arith)
settle d r h (suc fuel) lt = h fuel (omega arith)

-- With more fuel than the weight, the loop has an outcome, which does not depend on the fuel.
pub loop-Settled :
    (fuel : ℕ) (d : TrackDevicesDecoder) → weight d < fuel → (r : Pushed) × Settled d r
loop-Settled zero d h = absurd (omega arith)
loop-Settled (suc fuel) d h = elim (turn-cases d) [
  | inl (d', e) ↦ (ok (d', []), settle d _ (λ more le. loop-turn more d _ e))
  | inr (inl (d', us, e)) ↦
      let lighter = turn-lighter d d' us e in
      let (r, all) = loop-Settled fuel d' (omega arith) in
      (
        with_updates us r,
        settle d _ (λ more le. loop-turn more d _ e ∙ ap (prepend us) (all more (omega arith))),
      )
  | inr (inr (inl (x, e))) ↦ (err x, settle d _ (λ more le. loop-turn more d _ e))
  | inr (inr (inr e)) ↦ (panic, settle d _ (λ more le. loop-turn more d _ e))
]

-- Whatever bytes arrive in whatever state, the loop of `push` comes to an end: the fuel that it is
-- given never runs out.
pub push_returns : (d : TrackDevicesDecoder) (bytes : List ℕ) → push d bytes ≢ none
unfolding push
push_returns d bytes e =
    let d' : TrackDevicesDecoder = record d { buffer = d.buffer ++ bytes } in
    let weigh : weight d' < length d.buffer + length bytes + 2 = weight-append d bytes in
    let (r, all) = loop-Settled (weight d' + 1) d' (omega arith) in let q = all _ weigh in cc
