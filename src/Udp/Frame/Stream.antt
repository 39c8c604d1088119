-- ===== src/Udp/Frame/Stream.antt =====
-- `HevUdpFrame::read_from`, over the reader of the control protocol.
use quest_vd_wired.Common.{
  ℕ, ◌+◌, ◌-◌, ◌≡◌, ◌≤◌, ◌∙◌, ap, List, [], ◌∷◌, ◌++◌, Option, some, none, Outcome, ok, err, ◌>>=◌,
  ◌>>◌, reject_if, index, ltb, from_be16, arith, suc,
}
use quest_vd_wired.Udp.Endpoint.{HevFrameError, payload_too_large, invalid_header_length, io}
use quest_vd_wired.Udp.Frame.{HevUdpFrame, max_udp_payload, decode}
use quest_vd_wired.Udp.Frame.Exact.{decode-prefix}
use quest_vd_wired.Protocol.Frame.Stream.{Reader}
use quest_vd_wired.Protocol.Frame.StreamLaws.{read_exact-append}

-- `?` on an I/O result.
abbrev pub from_io_error : {A : Type 0} → Option A → Outcome HevFrameError A
from_io_error none = err io
from_io_error (some a) = ok a

module _ (r : Reader) where
  open r use {Stream, pending, read_exact}

  -- `checked_add` cannot overflow.
  unfoldable pub read_frame : Stream → Outcome HevFrameError (HevUdpFrame × Stream)
  read_frame s = do
    (prefix, s₁) ← from_io_error (read_exact 3 s)
    l₁ ← index prefix 0
    l₂ ← index prefix 1
    let payload_len = from_be16 l₁ l₂
    reject_if (ltb max_udp_payload payload_len) (payload_too_large payload_len)
    header_len ← index prefix 2
    reject_if (ltb header_len 3) (invalid_header_length header_len)
    (body, s₂) ← from_io_error (read_exact (header_len + payload_len - 3) s₁)
    frame ← decode (prefix ++ body)
    ok (frame, s₂)

  read_frame_run :
      (s s₁ s₂ : Stream) (l₁ l₂ k : ℕ) (body : List ℕ) (f : HevUdpFrame)
      → read_exact 3 s ≡ some (l₁ ∷ l₂ ∷ suc (suc (suc k)) ∷ [], s₁)
      → from_be16 l₁ l₂ ≤ max_udp_payload
      → read_exact (suc (suc (suc k)) + from_be16 l₁ l₂ - 3) s₁ ≡ some (body, s₂)
      → decode (l₁ ∷ l₂ ∷ suc (suc (suc k)) ∷ body) ≡ ok f
      → read_frame s ≡ ok (f, s₂)
  unfolding read_frame
  read_frame_run s s₁ s₂ l₁ l₂ k body f h small h' d = ground arith

  -- If the stream holds the bytes of a datagram and more, `read_from` returns that datagram and
  -- leaves the stream at what follows it.
  pub read_frame-decode :
      (s : Stream) (input rest : List ℕ) (f : HevUdpFrame)
      → decode input ≡ ok f
      → pending s ≡ input ++ rest
      → (s' : Stream) × (read_frame s ≡ ok (f, s')) × (pending s' ≡ rest)
  read_frame-decode s input rest f e p =
      let (l₁, l₂, k, body, shape, small, whole) = decode-prefix input f e in
      let front : List ℕ = l₁ ∷ l₂ ∷ suc (suc (suc k)) ∷ [] in
      let q : pending s ≡ front ++ (body ++ rest) = p ∙ ap (λ l. l ++ rest) shape in
      let (s₁, h₁, p₁) = read_exact-append r 3 s front (body ++ rest) (omega arith) q in
      let (s₂, h₂, p₂) =
        read_exact-append r (suc (suc (suc k)) + from_be16 l₁ l₂ - 3) s₁ body rest (omega arith)
          p₁ in
      (s₂, read_frame_run s s₁ s₂ l₁ l₂ k body f h₁ small h₂ (rw shape at e), p₂)
