-- ===== src/Protocol/Frame/Stream.antt =====
-- `Frame::read_from` over a byte stream, and what it takes from the stream.
use quest_vd_wired.Common.{
  ℕ, ◌≡◌, ◌≤◌, ◌<◌, List, ◌++◌, Option, some, none, Outcome, ok, err, ◌>>=◌, ◌>>◌, reject_if, index,
  slice, ltb, ◌==◌, not, bytes_eq, from_be16, from_be32, length, take, drop,
}
use quest_vd_wired.Protocol.Types.{
  ProtocolError, Frame, bad_magic, payload_too_large, unsupported_version, io, magic, version,
  header_len, max_payload_len,
}
use quest_vd_wired.Protocol.Frame.{decode}

-- A `tokio` reader: `read_exact n` fills a buffer of n bytes from what the peer sends before it
-- closes the stream, or fails, with an unexpected end of file, when that is less.
pub record Reader : Type 1 where
  pub Stream : Type 0
  pub pending : Stream → List ℕ
  pub read_exact : ℕ → Stream → Option (List ℕ × Stream)
  pub enough :
      (n : ℕ) (s : Stream)
      → n ≤ length (pending s)
      → (s' : Stream) × (read_exact n s ≡ some (take n (pending s), s'))
        × (pending s' ≡ drop n (pending s))
  pub short : (n : ℕ) (s : Stream) → length (pending s) < n → read_exact n s ≡ none

-- `?` on an I/O result.
abbrev pub from_io : {A : Type 0} → Option A → Outcome ProtocolError A
from_io none = err io
from_io (some a) = ok a

module _ (r : Reader) where
  open r use {Stream, read_exact}

  -- The second buffer starts as the header, and is filled up by the second read.
  unfoldable pub read_from : Stream → Outcome ProtocolError (Frame × Stream)
  read_from s = do
    (header, s₁) ← from_io (read_exact header_len s)
    front ← slice header 0 4
    reject_if (not (bytes_eq front magic)) bad_magic
    v₁ ← index header 4
    v₂ ← index header 5
    reject_if (not (from_be16 v₁ v₂ == version)) (unsupported_version (from_be16 v₁ v₂))
    l₁ ← index header 8
    l₂ ← index header 9
    l₃ ← index header 10
    l₄ ← index header 11
    let payload_len = from_be32 l₁ l₂ l₃ l₄
    reject_if (ltb max_payload_len payload_len) (payload_too_large payload_len)
    (body, s₂) ← from_io (read_exact payload_len s₁)
    frame ← decode (header ++ body)
    ok (frame, s₂)
