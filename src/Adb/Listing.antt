-- ===== src/Adb/Listing.antt =====
-- The listing of reverse mappings is read back as it was printed.
use quest_vd_wired.Common.{
  ℕ, ◌≡◌, ◌≢◌, refl, ap, ◌∙◌, true, false, some, List, [], ◌∷◌, ◌++◌, arith, All, All-append, codes,
  lines, words, is_whitespace, starts_with,
}
use quest_vd_wired.Adb.Parse.{parse_reverse_list, read_reverse_lines, three_fields, cons_some}

-- A line of the listing: the transport, and the two ends of the mapping.
pub record Line : Type 0 where
  pub transport : List ℕ
  pub remote : List ℕ
  pub local : List ℕ

pub print_line : Line → List ℕ
print_line l = l.transport ++ (32 ∷ (l.remote ++ (32 ∷ l.local)))

pub print_listing : List Line → List ℕ
print_listing [] = []
print_listing (l ∷ ls) = print_line l ++ (b'\n' ∷ print_listing ls)

abbrev pub NotWhite : ℕ → Type 0
NotWhite c = is_whitespace c ≡ false

-- A field is not empty and has no white space in it.
pub record IsField (w : List ℕ) : Type 0 where
  pub not_empty : w ≢ []
  pub no_white : All NotWhite w

pub record IsLine (l : Line) : Type 0 where
  pub transport : IsField l.transport
  pub remote : IsField l.remote
  pub local : IsField l.local
  pub remote_tcp : starts_with (codes "tcp:") l.remote ≡ true
  pub local_tcp : starts_with (codes "tcp:") l.local ≡ true

space-white : is_whitespace 32 ≡ true
unfolding is_whitespace
space-white = refl

words_of_chars :
    (w rest : List ℕ) → w ≢ [] → All NotWhite w → words (w ++ (32 ∷ rest)) ≡ w ∷ words rest
unfolding words
words_of_chars [] rest h k = absurd (h refl)
words_of_chars (c ∷ []) rest h k = ground (arith, space-white)
words_of_chars (c ∷ d ∷ ds) rest h (k, ks) =
    ground (arith, words_of_chars (d ∷ ds) rest (λ e. absurd (ground arith)) ks)

last_word : (w : List ℕ) → w ≢ [] → All NotWhite w → words w ≡ w ∷ []
unfolding words
last_word [] h k = absurd (h refl)
last_word (c ∷ []) h k = ground arith
last_word (c ∷ d ∷ ds) h (k, ks) =
    ground (arith, last_word (d ∷ ds) (λ e. absurd (ground arith)) ks)

-- A character that ends no line.
abbrev Inline : ℕ → Type 0
Inline c = (c ≢ b'\n') × (c ≢ b'\r')

NotWhite-Inline : (c : ℕ) → NotWhite c → Inline c
unfolding is_whitespace
NotWhite-Inline c h = (λ e. ground arith, λ e. ground arith)

All-Inline : (w : List ℕ) → All NotWhite w → All Inline w
All-Inline [] h = tt
All-Inline (c ∷ w) (h, hs) = (NotWhite-Inline c h, All-Inline w hs)

lines_of_line : (l rest : List ℕ) → All Inline l → lines (l ++ (b'\n' ∷ rest)) ≡ l ∷ lines rest
unfolding lines
lines_of_line [] rest h = refl
lines_of_line (c ∷ l) rest ((h, k), hs) = ground (arith, lines_of_line l rest)

print_line-words :
    (l : Line) → IsLine l → words (print_line l) ≡ l.transport ∷ l.remote ∷ l.local ∷ []
unfolding print_line
print_line-words l h =
    words_of_chars l.transport _ h.transport.not_empty h.transport.no_white
    ∙ ap (λ ws. l.transport ∷ ws)
        (words_of_chars l.remote l.local h.remote.not_empty h.remote.no_white
          ∙ ap (λ ws. l.remote ∷ ws) (last_word l.local h.local.not_empty h.local.no_white))

print_line-Inline : (l : Line) → IsLine l → All Inline (print_line l)
unfolding print_line
print_line-Inline l h =
    All-append Inline l.transport _ (All-Inline l.transport h.transport.no_white) (
      omega arith,
      All-append Inline l.remote _ (All-Inline l.remote h.remote.no_white)
          (omega arith, All-Inline l.local h.local.no_white),
    )

pub ends_of : List Line → List (List ℕ × List ℕ)
ends_of [] = []
ends_of (l ∷ ls) = (l.remote, l.local) ∷ ends_of ls

fields-IsLine :
    (l : Line) → IsLine l → three_fields (words (print_line l)) ≡ some (l.remote, l.local)
fields-IsLine l h = ap three_fields (print_line-words l h) ∙ rw (h.remote_tcp, h.local_tcp) refl

read-cons :
    (line : List ℕ) (rest : List (List ℕ)) (ends : List ℕ × List ℕ)
    → three_fields (words line) ≡ some ends
    → read_reverse_lines (line ∷ rest) ≡ ends ∷ read_reverse_lines rest
unfolding read_reverse_lines
read-cons line rest ends h = ap (λ o. cons_some o (read_reverse_lines rest)) h

-- A listing of mappings, each a line of a transport and two TCP ends that are not empty and without white
-- space, is read back as these ends, in their order.
pub parse-print_listing :
    (ls : List Line) → All IsLine ls → parse_reverse_list (print_listing ls) ≡ ends_of ls
unfolding parse_reverse_list print_listing ends_of
parse-print_listing [] h = refl
parse-print_listing (l ∷ ls) (h, hs) =
    ap read_reverse_lines (lines_of_line (print_line l) (print_listing ls) (print_line-Inline l h))
    ∙ read-cons (print_line l) (lines (print_listing ls)) (l.remote, l.local) (fields-IsLine l h)
    ∙ ap (λ es. (l.remote, l.local) ∷ es) (parse-print_listing ls hs)
