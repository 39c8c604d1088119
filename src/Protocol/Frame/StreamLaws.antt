-- ===== src/Protocol/Frame/StreamLaws.antt =====
-- `Frame::read_from` takes exactly one frame from the stream, and reads it as `decode` does.
use quest_vd_wired.Common.{
  ℕ, ◌≡◌, ◌≤◌, ap, ◌∙◌, List, ◌++◌, some, ok, arith, length, take, drop, from_be32, AreBytes,
  length-append, append_assoc, take-append, drop-append,
}
use quest_vd_wired.Protocol.Types.{Frame, max_payload_len}
use quest_vd_wired.Protocol.Frame.{decode}
use quest_vd_wired.Protocol.Frame.RoundTrip.{wire}
use quest_vd_wired.Protocol.Frame.Exact.{decode-shape}
use quest_vd_wired.Protocol.Frame.Stream.{Reader, read_from}

module _ (r : Reader) where
  open r use {Stream, pending, read_exact, enough, short}

  read_from_run :
      (s s₁ s₂ : Stream) (m₁ m₂ l₁ l₂ l₃ l₄ : ℕ) (t body : List ℕ) (f : Frame)
      → read_exact 28 s ≡ some (wire m₁ m₂ l₁ l₂ l₃ l₄ t, s₁)
      → from_be32 l₁ l₂ l₃ l₄ ≤ max_payload_len
      → read_exact (from_be32 l₁ l₂ l₃ l₄) s₁ ≡ some (body, s₂)
      → decode (wire m₁ m₂ l₁ l₂ l₃ l₄ t ++ body) ≡ ok f
      → read_from r s ≡ ok (f, s₂)
  unfolding read_from
  read_from_run s s₁ s₂ m₁ m₂ l₁ l₂ l₃ l₄ t body f h small h' d = ground arith

  pub read_exact-append :
      (n : ℕ) (s : Stream) (xs ys : List ℕ)
      → length xs ≡ n
      → pending s ≡ xs ++ ys
      → (s' : Stream) × (read_exact n s ≡ some (xs, s')) × (pending s' ≡ ys)
  read_exact-append n s xs ys h p =
      let (s', e, q) = enough n s (rw p (omega (arith, length-append xs ys))) in
      (
        s',
        e ∙ ap (λ l. some (l, s')) (ap (take n) p ∙ take-append n xs ys h),
        q ∙ ap (drop n) p ∙ drop-append n xs ys h,
      )

  -- If the stream holds the bytes of a frame and more, `read_from` returns that frame and leaves
  -- the stream at what follows it.
  pub read_from-decode :
      (s : Stream) (input rest : List ℕ) (f : Frame)
      → AreBytes input
      → decode input ≡ ok f
      → pending s ≡ input ++ rest
      → (s' : Stream) × (read_from r s ≡ ok (f, s')) × (pending s' ≡ rest)
  read_from-decode s input rest f hb e p =
      let (m₁, m₂, l₁, l₂, l₃, l₄, t, body, shape, ht, hl, small) = decode-shape input f hb e in
      let front = wire m₁ m₂ l₁ l₂ l₃ l₄ t in
      let q : pending s ≡ front ++ (body ++ rest) =
        p ∙ ap (λ l. l ++ rest) shape ∙ append_assoc front body rest in
      let (s₁, h₁, p₁) = read_exact-append 28 s front (body ++ rest) (omega arith) q in
      let (s₂, h₂, p₂) = read_exact-append (from_be32 l₁ l₂ l₃ l₄) s₁ body rest hl p₁ in
      (s₂, read_from_run s s₁ s₂ m₁ m₂ l₁ l₂ l₃ l₄ t body f h₁ small h₂ (rw shape at e), p₂)
