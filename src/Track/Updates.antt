-- ===== src/Track/Updates.antt =====
-- The updates that the decoder gives, and that it ends without a panic.
use quest_vd_wired.Common.{
  panic, err, refl, ℕ, zero, suc, ◌+◌, ◌≡◌, ◌≢◌, ap, ◌∙◌, sym, subst, Bool, Option, none, some,
  List, [], ◌∷◌, ◌++◌, ok, arith, take, drop, Outcome-cases, Option-cases, inl, inr,
}
use quest_vd_wired.Track.Text.{push_line}
use quest_vd_wired.Track.Slices.{plain_framed, turn_framed-plain}
use quest_vd_wired.Track.Decoder.{
  TrackDevicesDecoder, TrackDevicesMode, unknown, framed, text_lines, goes_on, note_update,
  note_some_update, checked_length, turn_unknown, turn_text, split_line, turn, push_loop, push,
  pop_return, Pushed, prepend, parse_track_snapshot, turn_in,
}
use quest_vd_wired.Track.Turns.{turn-cases, loop-turn, push_returns}
use quest_vd_wired.Track.Chunks.{turn-returns, prepend-ok}

-- Updates between a last update before them and one after them, each other than the one before it.
abbrev pub Alternates : Option Bool → List Bool → Option Bool → Type 0
Alternates before [] after = before ≡ after
Alternates before (u ∷ us) after = (before ≢ some u) × Alternates (some u) us after

Alternates-append :
    (o p q : Option Bool) (us vs : List Bool)
    → Alternates o us p
    → Alternates p vs q
    → Alternates o (us ++ vs) q
Alternates-append o p q [] vs h k = subst (λ x. Alternates x vs q) (sym h) k
Alternates-append o p q (u ∷ us) vs (ne, h) k = (ne, Alternates-append (some u) p q us vs h k)

unchanged : (o p : Option Bool) (us : List Bool) → us ≡ [] → o ≡ p → Alternates o us p
unchanged o p [] h e = e
unchanged o p (u ∷ us) h e = absurd (ground arith)

note-Alternates :
    (d d' : TrackDevicesDecoder) (us : List Bool) (available : Bool)
    → note_update d available ≡ goes_on d' us
    → Alternates d.last_update us d'.last_update
unfolding note_update
note-Alternates d d' [] available h = ground arith
note-Alternates d d' (u ∷ []) available h = (ground arith, ground arith)
note-Alternates d d' (u ∷ v ∷ us) available h = absurd (ground arith)

note_some-Alternates :
    (d d' : TrackDevicesDecoder) (us : List Bool) (update : Option Bool)
    → note_some_update d update ≡ goes_on d' us
    → Alternates d.last_update us d'.last_update
note_some-Alternates d d' [] none h = ground arith
note_some-Alternates d d' (u ∷ us) none h = absurd (ground arith)
note_some-Alternates d d' us (some a) h = note-Alternates d d' us a h

framed-Alternates :
    (d d' : TrackDevicesDecoder) (us : List Bool)
    → plain_framed d ≡ ok (goes_on d' us)
    → Alternates d.last_update us d'.last_update
framed-Alternates d d' us h = elim (Outcome-cases (checked_length (take 4 d.buffer))) [
  | inl (n, e) ↦ elim (Outcome-cases (parse_track_snapshot (take n (drop 4 d.buffer)))) [
    | inl (a, q) ↦
        note-Alternates (record d { buffer = drop (4 + n) d.buffer }) d' us a (ground arith)
    | inr (inl (x, q)) ↦ absurd (ground arith)
    | inr (inr q) ↦ absurd (ground arith)
  ]
  | inr (inl (x, e)) ↦ absurd (ground arith)
  | inr (inr e) ↦ absurd (ground arith)
]

turn_in-Alternates :
    (m : TrackDevicesMode) (d d' : TrackDevicesDecoder) (us : List Bool)
    → turn_in m d ≡ ok (goes_on d' us)
    → Alternates d.last_update us d'.last_update
unfolding turn_unknown turn_text
turn_in-Alternates unknown d d' us h = elim (Outcome-cases (checked_length (take 4 d.buffer))) [
  | inl (n, e) ↦ unchanged d.last_update d'.last_update us (ground arith) (ground arith)
  | inr (inl (x, e)) ↦ unchanged d.last_update d'.last_update us (ground arith) (ground arith)
  | inr (inr e) ↦ unchanged d.last_update d'.last_update us (ground arith) (ground arith)
]
turn_in-Alternates framed d d' us h = framed-Alternates d d' us (sym (turn_framed-plain d) ∙ h)
turn_in-Alternates text_lines d d' us h = elim (Option-cases (split_line d.buffer)) [
  | inl e ↦ absurd (ground arith)
  | inr ((l, r), e) ↦
      let (parser, update) = push_line d.text (pop_return l) in
      note_some-Alternates (record d { buffer = r; text = parser }) d' us update (ground arith)
]

turn-Alternates :
    (d d' : TrackDevicesDecoder) (us : List Bool)
    → turn d ≡ ok (goes_on d' us)
    → Alternates d.last_update us d'.last_update
unfolding turn
turn-Alternates d d' us h = turn_in-Alternates d.mode d d' us h

loop-Alternates :
    (fuel : ℕ) (d d' : TrackDevicesDecoder) (us : List Bool)
    → push_loop fuel d ≡ some (ok (d', us))
    → Alternates d.last_update us d'.last_update
loop-Alternates zero d d' us h = unfold push_loop in absurd (ground arith)
loop-Alternates (suc fuel) d d' us h = elim (turn-cases d) [
  | inl (d₁, e) ↦
      let q = sym (loop-turn fuel d _ e) ∙ h in
      let end : d₁ ≡ d' = ground arith in
      let same : d ≡ d' = turn-returns d d₁ e ∙ end in
      unchanged d.last_update d'.last_update us (ground arith)
        (ap (λ (x : TrackDevicesDecoder). x.last_update) same)
  | inr (inl (d₁, vs, e)) ↦
      let (ws, q, p) = prepend-ok vs us (push_loop fuel d₁) d' (sym (loop-turn fuel d _ e) ∙ h) in
      rw p (
        Alternates-append d.last_update d₁.last_update d'.last_update vs ws
          (turn-Alternates d d₁ vs e) (loop-Alternates fuel d₁ d' ws q))
  | inr (inr (inl (x, e))) ↦ absurd (let q = sym (loop-turn fuel d _ e) ∙ h in ground arith)
  | inr (inr (inr e)) ↦ absurd (let q = sym (loop-turn fuel d _ e) ∙ h in ground arith)
]

-- The updates that a call of `push` gives alternate: the first differs from the last one before the
-- call, each later one from the one before it, and the last one is remembered for the next call.
pub push-Alternates :
    (d d' : TrackDevicesDecoder) (us : List Bool) (bytes : List ℕ)
    → push d bytes ≡ some (ok (d', us))
    → Alternates d.last_update us d'.last_update
unfolding push
push-Alternates d d' us bytes h =
    loop-Alternates _ (record d { buffer = d.buffer ++ bytes }) d' us h

prepend-panic : (us : List Bool) (o : Option Pushed) → prepend us o ≡ some panic → o ≡ some panic
prepend-panic us none h = absurd (ground arith)
prepend-panic us (some (ok (d, ws))) h = absurd (ground arith)
prepend-panic us (some (err e)) h = absurd (ground arith)
prepend-panic us (some panic) h = refl

framed-ne-panic : (d : TrackDevicesDecoder) → plain_framed d ≢ panic
unfolding checked_length parse_track_snapshot
framed-ne-panic d h = ground arith

turn_in-ne-panic : (m : TrackDevicesMode) (d : TrackDevicesDecoder) → turn_in m d ≢ panic
unfolding turn_unknown turn_text
turn_in-ne-panic unknown d h = ground arith
turn_in-ne-panic framed d h = framed-ne-panic d (sym (turn_framed-plain d) ∙ h)
turn_in-ne-panic text_lines d h = ground arith

loop-ne-panic : (fuel : ℕ) (d : TrackDevicesDecoder) → push_loop fuel d ≢ some panic
loop-ne-panic zero d h = unfold push_loop in ground arith
loop-ne-panic (suc fuel) d h = elim (turn-cases d) [
  | inl (d₁, e) ↦ let q = sym (loop-turn fuel d _ e) ∙ h in ground arith
  | inr (inl (d₁, vs, e)) ↦
      loop-ne-panic fuel d₁ (prepend-panic vs (push_loop fuel d₁) (sym (loop-turn fuel d _ e) ∙ h))
  | inr (inr (inl (x, e))) ↦ let q = sym (loop-turn fuel d _ e) ∙ h in ground arith
  | inr (inr (inr e)) ↦ turn_in-ne-panic d.mode d (unfold turn in e)
]

-- Whatever bytes arrive in whatever state, the loop of `push` comes to an end before its fuel runs
-- out, and no slice of the buffer is out of bounds.
pub push_ends :
    (d : TrackDevicesDecoder) (bytes : List ℕ) → (push d bytes ≢ none) × (push d bytes ≢ some panic)
unfolding push
push_ends d bytes =
    (push_returns d bytes, λ h. loop-ne-panic _ (record d { buffer = d.buffer ++ bytes }) h)
