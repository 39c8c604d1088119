-- ===== src/Diagnostics/Bounded.antt =====
-- The log never grows beyond its bounds.
use quest_vd_wired.Common.{
  ℕ, zero, suc, ◌+◌, ◌-◌, ◌^◌, ◌≡◌, ◌≢◌, ◌≤◌, ◌<◌, refl, Option, none, some, Bool, true, false,
  ◌&&◌, List, ltb, length, length-append, arith, Bool-cases, inl, inr, ◌⊎◌, subst, sym,
}
use quest_vd_wired.Diagnostics.Rotation.{
  FileCall, flushes, opens, RotatingWriter, Files, FileResult, remove_file, rename_up,
  unless_refused, rename_all, make_room, contents, reopen, rotate, append, append_after,
  write_record, Written, saturating_add,
}

-- The file has a number below the count, if it exists, and a size within the bound.
abbrev pub Fits : ℕ → ℕ → ℕ → Option (List ℕ) → Type 0
Fits count size i none = Unit {0}
Fits count size i (some c) = (i < count) × (length c ≤ size)

abbrev pub AllFit : ℕ → ℕ → Files → Type 0
AllFit count size files = (i : ℕ) → Fits count size i (files i)

pub record IsBounded (w : RotatingWriter) : Type 0 where
  pub fits : AllFit w.file_count w.max_bytes w.files
  pub some_file : 0 < w.file_count
  pub size_is_u64 : w.max_bytes < 2 ^ 64 - 1
  pub counted : (w.is_open ≡ false) ⊎ (length (contents (w.files 0)) ≡ w.bytes)

remove-AllFit :
    (count size : ℕ) (refuses : FileCall → Bool) (files : Files) (k : ℕ)
    → AllFit count size files
    → AllFit count size (remove_file refuses files k).0
unfolding remove_file
remove-AllFit count size refuses files k h i = ground (arith, h i)

rename-AllFit :
    (count size : ℕ) (refuses : FileCall → Bool) (files : Files) (k : ℕ)
    → k + 1 < count
    → AllFit count size files
    → AllFit count size (rename_up refuses files k).0
unfolding rename_up
rename-AllFit count size refuses files k b h i = ground (arith, h i, h k)

unless_refused-AllFit :
    (count size : ℕ) (r : FileResult) (k : Files → FileResult)
    → AllFit count size r.0
    → ((fs : Files) → AllFit count size fs → AllFit count size (k fs).0)
    → AllFit count size (unless_refused r k).0
unless_refused-AllFit count size (fs, true) k g h = g
unless_refused-AllFit count size (fs, false) k g h = h fs g

rename_all-AllFit :
    (count size : ℕ) (refuses : FileCall → Bool) (files : Files) (k : ℕ)
    → k < count
    → AllFit count size files
    → AllFit count size (rename_all refuses files k).0
unfolding rename_all
rename_all-AllFit count size refuses files zero b h = h
rename_all-AllFit count size refuses files (suc k) b h =
    unless_refused-AllFit count size (rename_up refuses files k) (λ fs. rename_all refuses fs k)
      (rename-AllFit count size refuses files k (omega arith) h)
      (λ fs. rename_all-AllFit count size refuses fs k (omega arith))

-- A result whose call was not refused has no file 0.
abbrev Clears : FileResult → Type 0
Clears r = (r.1 ≡ true) ⊎ (r.0 0 ≡ none)

rename-Clears : (refuses : FileCall → Bool) (files : Files) → Clears (rename_up refuses files 0)
unfolding rename_up
rename-Clears refuses files = ground arith

remove-Clears : (refuses : FileCall → Bool) (files : Files) → Clears (remove_file refuses files 0)
unfolding remove_file
remove-Clears refuses files = ground arith

unless_refused-Clears :
    (r : FileResult) (k : Files → FileResult)
    → ((fs : Files) → Clears (k fs))
    → Clears (unless_refused r k)
unless_refused-Clears (fs, true) k h = inl refl
unless_refused-Clears (fs, false) k h = h fs

rename_all-Clears :
    (refuses : FileCall → Bool) (files : Files) (k : ℕ) → Clears (rename_all refuses files (suc k))
unfolding rename_all
rename_all-Clears refuses files zero = ground (arith, rename-Clears refuses files)
rename_all-Clears refuses files (suc k) =
    unless_refused-Clears (rename_up refuses files (suc k)) (λ fs. rename_all refuses fs (suc k))
      (λ fs. rename_all-Clears refuses fs k)

two_or_more :
    (n : ℕ) (refuses : FileCall → Bool) (files : Files)
    → make_room refuses files (suc (suc n))
      ≡ unless_refused (remove_file refuses files (suc n)) (λ fs. rename_all refuses fs (suc n))
unfolding make_room
two_or_more n refuses files = ground arith

only_one :
    (refuses : FileCall → Bool) (files : Files)
    → make_room refuses files 1 ≡ remove_file refuses files 0
unfolding make_room
only_one refuses files = ground arith

-- To make room keeps the bounds, and leaves no file 0.
make_room-AllFit :
    (count size : ℕ) (refuses : FileCall → Bool) (files : Files)
    → 0 < count
    → AllFit count size files
    → AllFit count size (make_room refuses files count).0
make_room-AllFit zero size refuses files b h = absurd (omega arith)
make_room-AllFit (suc zero) size refuses files b h =
    subst (λ z. AllFit 1 size z.0) (sym (only_one refuses files))
      (remove-AllFit 1 size refuses files 0 h)
make_room-AllFit (suc (suc n)) size refuses files b h =
    subst (λ z. AllFit (suc (suc n)) size z.0) (sym (two_or_more n refuses files))
      (unless_refused-AllFit (suc (suc n)) size (remove_file refuses files (suc n))
        (λ fs. rename_all refuses fs (suc n))
        (remove-AllFit (suc (suc n)) size refuses files (suc n) h)
        (λ fs. rename_all-AllFit (suc (suc n)) size refuses fs (suc n) (omega arith)))

make_room-Clears :
    (count : ℕ) (refuses : FileCall → Bool) (files : Files)
    → 0 < count
    → Clears (make_room refuses files count)
make_room-Clears zero refuses files b = absurd (omega arith)
make_room-Clears (suc zero) refuses files b =
    subst Clears (sym (only_one refuses files)) (remove-Clears refuses files)
make_room-Clears (suc (suc n)) refuses files b = subst Clears (sym (two_or_more n refuses files)) (
    unless_refused-Clears (remove_file refuses files (suc n)) (λ fs. rename_all refuses fs (suc n))
      (λ fs. rename_all-Clears refuses fs n))

reopen-IsBounded :
    (refuses : FileCall → Bool) (w : RotatingWriter) (r : FileResult)
    → IsBounded w
    → AllFit w.file_count w.max_bytes r.0
    → Clears r
    → IsBounded (reopen refuses w r).0
reopen-IsBounded refuses w (files, true) h g c = record {
  fits = g;
  some_file = h.some_file;
  size_is_u64 = h.size_is_u64;
  counted = inl refl;
}
reopen-IsBounded refuses w (files, false) h g (inl c) = absurd (ground arith)
reopen-IsBounded refuses w (files, false) h g (inr c) = elim (Bool-cases (refuses opens)) [
  | inl e ↦ record {
    fits = λ i. ground (arith, e, g i);
    some_file = ground (arith, e, h.some_file);
    size_is_u64 = ground (arith, e, h.size_is_u64);
    counted = ground (arith, e);
  }
  | inr e ↦ record {
    fits = λ i. ground (arith, e, c, g i, h.some_file);
    some_file = ground (arith, e, h.some_file);
    size_is_u64 = ground (arith, e, h.size_is_u64);
    counted = ground (arith, e, c);
  }
]

not_flushing :
    (refuses : FileCall → Bool) (w : RotatingWriter)
    → (w.is_open && refuses flushes) ≡ false
    → rotate refuses w ≡ reopen refuses w (make_room refuses w.files w.file_count)
unfolding rotate
not_flushing refuses w e = rw e refl

rotate-IsBounded :
    (refuses : FileCall → Bool) (w : RotatingWriter) → IsBounded w → IsBounded (rotate refuses w).0
unfolding rotate
rotate-IsBounded refuses w h = elim (Bool-cases (w.is_open && refuses flushes)) [
  | inl e ↦ record {
    fits = λ i. ground (arith, e, h.fits i);
    some_file = ground (arith, e, h.some_file);
    size_is_u64 = ground (arith, e, h.size_is_u64);
    counted = ground (arith, e);
  }
  | inr e ↦
      subst (λ z. IsBounded z.0) (sym (not_flushing refuses w e))
        (reopen-IsBounded refuses w (make_room refuses w.files w.file_count) h
          (make_room-AllFit w.file_count w.max_bytes refuses w.files h.some_file h.fits)
          (make_room-Clears w.file_count refuses w.files h.some_file))
]

-- A rotation that succeeds begins an empty file, under the same bounds.
rotate_empties :
    (refuses : FileCall → Bool) (w : RotatingWriter)
    → ((rotate refuses w).1 ≢ none)
      ⊎ (((rotate refuses w).0.bytes ≡ 0) × ((rotate refuses w).0.max_bytes ≡ w.max_bytes))
unfolding rotate
rotate_empties refuses w = ground arith

append-IsBounded :
    (w : RotatingWriter) (bytes : List ℕ)
    → w.bytes + length bytes ≤ w.max_bytes
    → IsBounded w
    → IsBounded (append w bytes none).0
unfolding append
append-IsBounded w bytes b h = elim (Bool-cases w.is_open) [
  | inl e ↦ record {
    fits = λ i.
        ground
          (arith, e, h.fits i, h.some_file, h.counted, length-append (contents (w.files 0)) bytes);
    some_file = ground (arith, e, h.some_file);
    size_is_u64 = ground (arith, e, h.size_is_u64);
    counted =
        ground (arith, e, h.counted, h.size_is_u64, length-append (contents (w.files 0)) bytes);
  }
  | inr e ↦ record {
    fits = λ i. ground (arith, e, h.fits i);
    some_file = ground (arith, e, h.some_file);
    size_is_u64 = ground (arith, e, h.size_is_u64);
    counted = ground (arith, e);
  }
]

append_after-IsBounded :
    (r : Written) (bytes : List ℕ)
    → (r.1 ≢ none) ⊎ (r.0.bytes + length bytes ≤ r.0.max_bytes)
    → IsBounded r.0
    → IsBounded (append_after r bytes none).0
append_after-IsBounded (w, some e) bytes b h = h
append_after-IsBounded (w, none) bytes (inl b) h = absurd (b refl)
append_after-IsBounded (w, none) bytes (inr b) h = append-IsBounded w bytes b h

with_rotation :
    (refuses : FileCall → Bool) (w : RotatingWriter) (bytes : List ℕ)
    → (ltb 0 w.bytes && ltb w.max_bytes (saturating_add w.bytes (length bytes))) ≡ true
    → write_record refuses w bytes none ≡ append_after (rotate refuses w) bytes none
unfolding write_record
with_rotation refuses w bytes e = rw e refl

without_rotation :
    (refuses : FileCall → Bool) (w : RotatingWriter) (bytes : List ℕ)
    → (ltb 0 w.bytes && ltb w.max_bytes (saturating_add w.bytes (length bytes))) ≡ false
    → write_record refuses w bytes none ≡ append w bytes none
unfolding write_record
without_rotation refuses w bytes e = rw e refl

-- A record that is no longer than the bound on a file keeps the log within its bounds, whatever the system
-- refuses, if the write itself is not cut short: each file has a number below the count and at most the
-- bound's size, and the count of bytes is the size of the open file.
pub write-IsBounded :
    (refuses : FileCall → Bool) (w : RotatingWriter) (bytes : List ℕ)
    → length bytes ≤ w.max_bytes
    → IsBounded w
    → IsBounded (write_record refuses w bytes none).0
write-IsBounded refuses w bytes b h =
    elim (Bool-cases (ltb 0 w.bytes && ltb w.max_bytes (saturating_add w.bytes (length bytes)))) [
      | inl e ↦
          subst (λ z. IsBounded z.0) (sym (with_rotation refuses w bytes e))
            (append_after-IsBounded (rotate refuses w) bytes
              (ground (arith, b, rotate_empties refuses w)) (rotate-IsBounded refuses w h))
      | inr e ↦
          subst (λ z. IsBounded z.0) (sym (without_rotation refuses w bytes e))
            (append-IsBounded w bytes (ground (arith, b, e, h.size_is_u64)) h)
    ]
