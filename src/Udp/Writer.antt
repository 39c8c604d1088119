-- ===== src/Udp/Writer.antt =====
-- The writer task of `relay_fwd_udp`: replies are put together into batches, and a batch is one write.
use quest_vd_wired.Common.{
  ℕ, ◌+◌, ◌-◌, ◌%◌, ◌^◌, ◌≡◌, ◌≤◌, refl, ◌∙◌, Bool, true, false, ◌&&◌, not, List, [], ◌∷◌, ◌++◌,
  ltb, min, length, length-append, arith, All, All-append, be16, if◌then◌else◌, Outcome, ok, err,
  panic, Outcome-cases, Bool-cases, List-cases, inl, inr, take,
}
use quest_vd_wired.Udp.Endpoint.{HevFrameError, encode_endpoint}
use quest_vd_wired.Udp.Frame.{HevUdpFrame, max_udp_payload, encoded_len, encode_into}

-- `u8::MAX as usize + MAX_UDP_PAYLOAD`
abbrev pub max_write_batch_bytes : ℕ
max_write_batch_bytes = 255 + max_udp_payload

-- A reply that the task receives: its age in the queue, and whether the budget grants the room for it.
pub record Reply : Type 0 where
  pub frame : HevUdpFrame
  pub queue_age : ℕ
  pub granted : Bool

-- The batch, what was written, and the replies that were dropped.
pub record Writer : Type 0 where
  pub batch : List ℕ
  pub writes : List (List ℕ)
  pub dropped_queue_age : ℕ
  pub dropped_queue_full : ℕ

abbrev pub flush : Writer → Writer
flush w = record w { writes = w.writes ++ (w.batch ∷ []); batch = [] }

abbrev pub is_none {ℓ} : {A : Type ℓ} → List A → Bool
is_none [] = true
is_none (x ∷ xs) = false

-- A batch that has no room for the frame is written.
abbrev pub flush_if_full : Writer → ℕ → Writer
flush_if_full w n =
    if not (is_none w.batch) && ltb max_write_batch_bytes (min (length w.batch + n) (2 ^ 64 - 1))
    then flush w
    else w

abbrev pub put_frame : Writer → Outcome HevFrameError (List ℕ) → Outcome HevFrameError Writer
put_frame w (ok batch) = ok (record w { batch = batch })
put_frame w (err e) = err e
put_frame w panic = panic

unfoldable pub add_frame : Writer → HevUdpFrame → Bool → Outcome HevFrameError Writer
unfolding encode_into
add_frame w frame granted =
    if granted
    then put_frame w (encode_into frame w.batch)
    else ok (record w { dropped_queue_full = (w.dropped_queue_full + 1) % 2 ^ 64 })

unfoldable pub with_length :
    Writer → HevUdpFrame → Bool → Outcome HevFrameError ℕ → Outcome HevFrameError Writer
unfolding add_frame
with_length w frame granted (ok n) = add_frame (flush_if_full w n) frame granted
with_length w frame granted (err e) = err e
with_length w frame granted panic = panic

-- One reply of a batch.
unfoldable pub on_reply : ℕ → Writer → Reply → Outcome HevFrameError Writer
unfolding encoded_len with_length
on_reply max_age w r =
    if ltb max_age r.queue_age
    then ok (record w { dropped_queue_age = (w.dropped_queue_age + 1) % 2 ^ 64 })
    else with_length w r.frame r.granted (encoded_len r.frame)

abbrev pub and_replies :
    (Writer → Outcome HevFrameError Writer)
    → Outcome HevFrameError Writer
    → Outcome HevFrameError Writer
and_replies k (ok w) = k w
and_replies k (err e) = err e
and_replies k panic = panic

unfoldable pub on_replies : ℕ → List Reply → Writer → Outcome HevFrameError Writer
unfolding on_reply
on_replies max_age [] w = ok (if is_none w.batch then w else flush w)
on_replies max_age (r ∷ rs) w = and_replies (on_replies max_age rs) (on_reply max_age w r)

-- The replies that wait, eight at most, are one turn of the task.
unfoldable pub write_batch : ℕ → List Reply → Writer → Outcome HevFrameError Writer
unfolding on_replies
write_batch max_age replies w = on_replies max_age (take 8 replies) w

-- The size of a frame, and what it adds to a batch.
frame_size : (f : HevUdpFrame) (n : ℕ) → encoded_len f ≡ ok n → n ≤ max_write_batch_bytes
unfolding encoded_len
frame_size f n h = elim (Outcome-cases (encode_endpoint f.endpoint)) [
  | inl (a, e) ↦ ground (arith, e, h)
  | inr (inl (x, e)) ↦ absurd (ground (arith, e, h))
  | inr (inr e) ↦ absurd (ground (arith, e, h))
]

laid_out :
    (out a p : List ℕ) (m k : ℕ)
    → length (out ++ be16 m ++ (k ∷ (a ++ p))) ≡ length out + (3 + length a + length p)
laid_out out a p m k =
    let q = length-append a p in
    let o = length-append out (be16 m) in
    length-append (out ++ be16 m) (k ∷ (a ++ p)) ∙ omega (arith, q, o)

frame_adds :
    (f : HevUdpFrame) (out b : List ℕ) (n : ℕ)
    → encoded_len f ≡ ok n
    → encode_into f out ≡ ok b
    → length b ≡ length out + n
unfolding encoded_len encode_into
frame_adds f out b n h k = elim (Outcome-cases (encode_endpoint f.endpoint)) [
  | inl (a, e) ↦
      let q = laid_out out a f.payload (length f.payload % 65536) (3 + length a) in
      ground (arith, e, h, k, q)
  | inr (inl (x, e)) ↦ absurd (ground (arith, e, h))
  | inr (inr e) ↦ absurd (ground (arith, e, h))
]

-- What the task holds: its batch, and each of its writes, within the bound.
pub record IsSmall (w : Writer) : Type 0 where
  pub batch : length w.batch ≤ max_write_batch_bytes
  pub writes : All (λ x. length x ≤ max_write_batch_bytes) w.writes

flush-IsSmall : (w : Writer) → IsSmall w → IsSmall (flush w)
flush-IsSmall w h = record {
  batch = omega arith;
  writes = All-append (λ x. length x ≤ max_write_batch_bytes) w.writes _ h.writes (h.batch, tt);
}

-- With room for the frame in any case.
no_flush :
    (w : Writer) (n : ℕ)
    → n ≤ max_write_batch_bytes
    → length w.batch ≤ max_write_batch_bytes
    → (not (is_none w.batch) && ltb max_write_batch_bytes (min (length w.batch + n) (2 ^ 64 - 1)))
      ≡ false
    → length w.batch + n ≤ max_write_batch_bytes
no_flush w n b h e = elim (List-cases w.batch) [
  | inl k ↦ ground (arith, k)
  | inr (x, xs, k) ↦ ground (arith, e, k)
]

flush_if_full-IsSmall :
    (w : Writer) (n : ℕ)
    → n ≤ max_write_batch_bytes
    → IsSmall w
    → IsSmall (flush_if_full w n) × (length (flush_if_full w n).batch + n ≤ max_write_batch_bytes)
flush_if_full-IsSmall w n b h =
    elim (Bool-cases (
      not (is_none w.batch) && ltb max_write_batch_bytes (min (length w.batch + n) (2 ^ 64 - 1)))) [
        | inl e ↦ rw e (flush-IsSmall w h, ground arith)
        | inr e ↦ rw e (h, no_flush w n b h.batch e)
      ]

-- A result that is an error says nothing of the task, which ends.
abbrev pub Small : Outcome HevFrameError Writer → Type 0
Small (ok w) = IsSmall w
Small (err e) = Unit {0}
Small panic = Unit {0}

put_frame-Small :
    (w : Writer) (f : HevUdpFrame) (n : ℕ)
    → encoded_len f ≡ ok n
    → length w.batch + n ≤ max_write_batch_bytes
    → IsSmall w
    → Small (put_frame w (encode_into f w.batch))
put_frame-Small w f n e b h = elim (Outcome-cases (encode_into f w.batch)) [
  | inl (out, k) ↦ rw k (record {
    batch = (let a = frame_adds f w.batch out n e k in omega (arith, a, b));
    writes = h.writes;
  })
  | inr (inl (x, k)) ↦ rw k tt
  | inr (inr k) ↦ rw k tt
]

add_frame-Small :
    (w : Writer) (f : HevUdpFrame) (granted : Bool) (n : ℕ)
    → encoded_len f ≡ ok n
    → length w.batch + n ≤ max_write_batch_bytes
    → IsSmall w
    → Small (add_frame w f granted)
unfolding add_frame
add_frame-Small w f true n e b h = put_frame-Small w f n e b h
add_frame-Small w f false n e b h = record { batch = h.batch; writes = h.writes }

with_length-Small :
    (w : Writer) (f : HevUdpFrame) (granted : Bool) (r : Outcome HevFrameError ℕ)
    → encoded_len f ≡ r
    → IsSmall w
    → Small (with_length w f granted r)
unfolding with_length
with_length-Small w f granted (ok n) e h =
    let (s, b) = flush_if_full-IsSmall w n (frame_size f n e) h in
    add_frame-Small (flush_if_full w n) f granted n e b s
with_length-Small w f granted (err x) e h = tt
with_length-Small w f granted panic e h = tt

on_reply-Small : (max_age : ℕ) (w : Writer) (r : Reply) → IsSmall w → Small (on_reply max_age w r)
unfolding on_reply
on_reply-Small max_age w r h = elim (Bool-cases (ltb max_age r.queue_age)) [
  | inl e ↦ rw e (record { batch = h.batch; writes = h.writes })
  | inr e ↦ rw e (with_length-Small w r.frame r.granted (encoded_len r.frame) refl h)
]

and_replies-Small :
    (k : Writer → Outcome HevFrameError Writer) (r : Outcome HevFrameError Writer)
    → ((w : Writer) → IsSmall w → Small (k w))
    → Small r
    → Small (and_replies k r)
and_replies-Small k (ok w) f h = f w h
and_replies-Small k (err e) f h = tt
and_replies-Small k panic f h = tt

on_replies-Small :
    (max_age : ℕ) (rs : List Reply) (w : Writer) → IsSmall w → Small (on_replies max_age rs w)
unfolding on_replies
on_replies-Small max_age [] w h = elim (Bool-cases (is_none w.batch)) [
  | inl e ↦ rw e h
  | inr e ↦ rw e (flush-IsSmall w h)
]
on_replies-Small max_age (r ∷ rs) w h =
    and_replies-Small (on_replies max_age rs) (on_reply max_age w r) (on_replies-Small max_age rs)
      (on_reply-Small max_age w r h)

-- Whatever replies wait: if no write of the task, and not its batch, is longer than the room that it
-- reserves, the longest header and the longest payload, then this holds behind the next batch.
pub write_batch-Small :
    (max_age : ℕ) (rs : List Reply) (w : Writer) → IsSmall w → Small (write_batch max_age rs w)
unfolding write_batch
write_batch-Small max_age rs w h = on_replies-Small max_age (take 8 rs) w h
