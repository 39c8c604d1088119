-- ===== src/Track/Chunks.antt =====
-- The decoder does not depend on how its input is cut into pieces.
use quest_vd_wired.Common.{
  ℕ, zero, suc, ◌+◌, ◌≡◌, ◌<◌, refl, Bool, Option, none, some, List, [], ◌++◌, ok, err, panic,
  arith, take, drop, Outcome-cases, Option-cases, inl, inr, ap, ◌∙◌, sym, append_assoc, subst,
}
use quest_vd_wired.Track.Slices.{plain_framed, turn_framed-plain}
use quest_vd_wired.Track.Decoder.{
  TrackDevicesDecoder, TrackDevicesMode, unknown, framed, text_lines, returns, goes_on, note_update,
  checked_length, turn_unknown, turn_text, split_line, turn, push_loop, push, Pushed,
  parse_track_snapshot, turn_in, prepend,
}
use quest_vd_wired.Track.Turns.{
  weight, weight-append, turn-lighter, turn-cases, loop-turn, loop-Settled,
}
use quest_vd_wired.Track.Feeding.{feed, turn-feed}

prepend-append :
    (us vs : List Bool) (o : Option Pushed) → prepend us (prepend vs o) ≡ prepend (us ++ vs) o
prepend-append us vs none = refl
prepend-append us vs (some (ok (d, ws))) = ap (λ l. some (ok (d, l))) (sym (append_assoc us vs ws))
prepend-append us vs (some (err e)) = refl
prepend-append us vs (some panic) = refl

prepend_nothing : (o : Option Pushed) → prepend [] o ≡ o
prepend_nothing none = refl
prepend_nothing (some (ok (d, ws))) = refl
prepend_nothing (some (err e)) = refl
prepend_nothing (some panic) = refl

-- The loop on the first bytes, and after it the loop on the others, is the loop on all of them.
Continues : TrackDevicesDecoder → TrackDevicesDecoder → List Bool → List ℕ → Type 0
Continues d d' us ys =
    (m k : ℕ)
    → weight (feed d ys) < m
    → weight (feed d' ys) < k
    → push_loop m (feed d ys) ≡ prepend us (push_loop k (feed d' ys))

same_fuel : (d : TrackDevicesDecoder) (ys : List ℕ) → Continues d d [] ys
unfolding Continues
same_fuel d ys m k lm lk =
    let (r, all) = loop-Settled (weight (feed d ys) + 1) (feed d ys) (omega arith) in
    all m lm ∙ sym (all k lk) ∙ sym (prepend_nothing (push_loop k (feed d ys)))

go_on :
    (d d₁ d' : TrackDevicesDecoder) (us vs : List Bool) (ys : List ℕ)
    → turn d ≡ ok (goes_on d₁ us)
    → Continues d₁ d' vs ys
    → Continues d d' (us ++ vs) ys
unfolding Continues
go_on d d₁ d' us vs ys e h zero k lm lk = absurd (omega arith)
go_on d d₁ d' us vs ys e h (suc m) k lm lk =
    let q = turn-feed d d₁ us ys e in
    let lighter = turn-lighter (feed d ys) (feed d₁ ys) us q in
    loop-turn m (feed d ys) _ q
    ∙ ap (prepend us) (h m k (omega arith) lk)
    ∙ prepend-append us vs (push_loop k (feed d' ys))

pub prepend-ok :
    (us ws : List Bool) (o : Option Pushed) (d : TrackDevicesDecoder)
    → prepend us o ≡ some (ok (d, ws))
    → (vs : List Bool) × (o ≡ some (ok (d, vs))) × (ws ≡ us ++ vs)
prepend-ok us ws (some (ok (d', vs))) d h = (vs, ground arith, ground arith)
prepend-ok us ws none d h = absurd (ground arith)
prepend-ok us ws (some (err e)) d h = absurd (ground arith)
prepend-ok us ws (some panic) d h = absurd (ground arith)

framed-returns : (d d' : TrackDevicesDecoder) → plain_framed d ≡ ok (returns d') → d ≡ d'
unfolding note_update
framed-returns d d' h = elim (Outcome-cases (checked_length (take 4 d.buffer))) [
  | inl (n, e) ↦ elim (Outcome-cases (parse_track_snapshot (take n (drop 4 d.buffer)))) [
    | inl (a, q) ↦ ground arith
    | inr (inl (x, q)) ↦ ground arith
    | inr (inr q) ↦ ground arith
  ]
  | inr (inl (x, e)) ↦ ground arith
  | inr (inr e) ↦ ground arith
]

-- A turn that returns leaves the decoder as it is.
turn_in-returns :
    (m : TrackDevicesMode) (d d' : TrackDevicesDecoder) → turn_in m d ≡ ok (returns d') → d ≡ d'
unfolding turn_unknown turn_text note_update
turn_in-returns unknown d d' h = elim (Outcome-cases (checked_length (take 4 d.buffer))) [
  | inl (n, e) ↦ ground arith
  | inr (inl (x, e)) ↦ ground arith
  | inr (inr e) ↦ ground arith
]
turn_in-returns framed d d' h = framed-returns d d' (sym (turn_framed-plain d) ∙ h)
turn_in-returns text_lines d d' h = elim (Option-cases (split_line d.buffer)) [
  | inl e ↦ ground arith
  | inr ((l, r), e) ↦ absurd (ground arith)
]

pub turn-returns : (d d' : TrackDevicesDecoder) → turn d ≡ ok (returns d') → d ≡ d'
unfolding turn
turn-returns d d' h = turn_in-returns d.mode d d' h

returns-ok :
    (d d' : TrackDevicesDecoder) (us : List Bool) (ys : List ℕ)
    → d ≡ d'
    → us ≡ []
    → Continues d d' us ys
returns-ok d d' us ys p q = subst (λ e. Continues d e us ys) p (rw q (same_fuel d ys))

loop-Continues :
    (fuel : ℕ) (d d' : TrackDevicesDecoder) (us : List Bool) (ys : List ℕ)
    → push_loop fuel d ≡ some (ok (d', us))
    → Continues d d' us ys
loop-Continues zero d d' us ys h = unfold push_loop in absurd (ground arith)
loop-Continues (suc fuel) d d' us ys h = elim (turn-cases d) [
  | inl (d₁, e) ↦
      let q = sym (loop-turn fuel d _ e) ∙ h in
      returns-ok d d' us ys (turn-returns d d₁ e ∙ ground arith) (ground arith)
  | inr (inl (d₁, vs, e)) ↦
      let (ws, q, p) = prepend-ok vs us (push_loop fuel d₁) d' (sym (loop-turn fuel d _ e) ∙ h) in
      rw p (go_on d d₁ d' vs ws ys e (loop-Continues fuel d₁ d' ws ys q))
  | inr (inr (inl (x, e))) ↦ absurd (let q = sym (loop-turn fuel d _ e) ∙ h in ground arith)
  | inr (inr (inr e)) ↦ absurd (let q = sym (loop-turn fuel d _ e) ∙ h in ground arith)
]

feed-append : (d : TrackDevicesDecoder) (xs ys : List ℕ) → feed d (xs ++ ys) ≡ feed (feed d xs) ys
feed-append d xs ys = ap (λ l. record d { buffer = l }) (sym (append_assoc d.buffer xs ys))

-- However the output of adb is cut into reads: if a first piece is taken without an error, then
-- taking the second one after it gives the updates, the decoder and the errors that taking both at
-- once gives, behind the updates of the first.
pub push-append :
    (d d' : TrackDevicesDecoder) (us : List Bool) (xs ys : List ℕ)
    → push d xs ≡ some (ok (d', us))
    → push d (xs ++ ys) ≡ prepend us (push d' ys)
unfolding push Continues
push-append d d' us xs ys h =
    let whole = weight-append d (xs ++ ys) in
    let shape = feed-append d xs ys in
    let light = ap weight shape in
    ap (push_loop _) shape
    ∙ loop-Continues _ (feed d xs) d' us ys h _ _ (omega arith) (weight-append d' ys)
