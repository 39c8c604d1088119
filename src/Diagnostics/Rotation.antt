-- ===== src/Diagnostics/Rotation.antt =====
-- `RotatingWriter`: a log that is kept in a bounded number of files of bounded size.
use quest_vd_wired.Common.{
  ℕ, zero, suc, ◌+◌, ◌-◌, ◌^◌, Option, none, some, Bool, true, false, ◌&&◌, List, [], ◌++◌, ltb,
  ◌==◌, length, min, if◌then◌else◌, take,
}

-- The operations on files that may fail with an error other than a missing file.
pub data FileCall : Type 0 where
  removes renames : ℕ → FileCall
  flushes opens : FileCall

-- The log files by their number, whether file 0 is open, and which calls the system refuses now.
pub record RotatingWriter : Type 0 where
  pub files : ℕ → Option (List ℕ)
  pub is_open : Bool
  pub bytes : ℕ
  pub max_bytes : ℕ
  pub file_count : ℕ

pub data IoError : Type 0 where
  invalid_input refused_call closed_writer write_error : IoError

abbrev pub Files : Type 0
Files = ℕ → Option (List ℕ)

-- A call's result: the files, and whether it failed.
abbrev pub FileResult : Type 0
FileResult = Files × Bool

abbrev pub put : Files → ℕ → Option (List ℕ) → Files
put files i content j = if j == i then content else files j

-- `fs::remove_file`; a missing file is no error here.
abbrev pub remove_with : Files → ℕ → Bool → Option (List ℕ) → FileResult
remove_with files i refused none = (files, false)
remove_with files i true (some c) = (files, true)
remove_with files i false (some c) = (put files i none, false)

unfoldable pub remove_file : (FileCall → Bool) → Files → ℕ → FileResult
remove_file refuses files i = remove_with files i (refuses (removes i)) (files i)

-- `fs::rename` of a file to the next number.
abbrev pub rename_with : Files → ℕ → Bool → Option (List ℕ) → FileResult
rename_with files i refused none = (files, false)
rename_with files i true (some c) = (files, true)
rename_with files i false (some c) = (put (put files (i + 1) (some c)) i none, false)

unfoldable pub rename_up : (FileCall → Bool) → Files → ℕ → FileResult
rename_up refuses files i = rename_with files i (refuses (renames i)) (files i)

abbrev pub unless_refused : FileResult → (Files → FileResult) → FileResult
unless_refused (files, true) k = (files, true)
unless_refused (files, false) k = k files

-- The loop over the files below this number, the highest first.
unfoldable pub rename_all : (FileCall → Bool) → Files → ℕ → FileResult
unfolding rename_up
rename_all refuses files zero = (files, false)
rename_all refuses files (suc i) =
    unless_refused (rename_up refuses files i) (λ fs. rename_all refuses fs i)

-- The old files make room.
unfoldable pub make_room : (FileCall → Bool) → Files → ℕ → FileResult
unfolding remove_file rename_all
make_room refuses files file_count =
    if ltb 1 file_count
    then unless_refused (remove_file refuses files (file_count - 1))
        (λ fs. rename_all refuses fs (file_count - 1))
    else remove_file refuses files 0

abbrev pub Written : Type 0
Written = RotatingWriter × Option IoError

-- `OpenOptions::new().create(true).append(true).open`
abbrev pub contents : Option (List ℕ) → List ℕ
contents none = []
contents (some c) = c

abbrev pub reopen : (FileCall → Bool) → RotatingWriter → FileResult → Written
reopen refuses w (files, true) = (record w { files = files; is_open = false }, some refused_call)
reopen refuses w (files, false) =
    if refuses opens then (record w { files = files; is_open = false }, some refused_call) else (
      record w { files = put files 0 (some (contents (files 0))); is_open = true; bytes = 0 },
      none,
    )

unfoldable pub rotate : (FileCall → Bool) → RotatingWriter → Written
unfolding make_room
rotate refuses w =
    if w.is_open && refuses flushes
    then (record w { is_open = false }, some refused_call)
    else reopen refuses w (make_room refuses w.files w.file_count)

-- `saturating_add` of 64 bits.
abbrev pub saturating_add : ℕ → ℕ → ℕ
saturating_add a b = min (a + b) (2 ^ 64 - 1)

-- The record is written to the open file; a write that fails may have written a part of it.
abbrev pub append_record : RotatingWriter → List ℕ → Option ℕ → Written
append_record w bytes (some n) = (
  record w { files = put w.files 0 (some (contents (w.files 0) ++ take n bytes)) },
  some write_error,
)
append_record w bytes none = (
  record w {
    files = put w.files 0 (some (contents (w.files 0) ++ bytes));
    bytes = saturating_add w.bytes (length bytes);
  },
  none,
)

unfoldable pub append : RotatingWriter → List ℕ → Option ℕ → Written
append w bytes fault = if w.is_open then append_record w bytes fault else (w, some closed_writer)

abbrev pub append_after : Written → List ℕ → Option ℕ → Written
append_after (w, some e) bytes fault = (w, some e)
append_after (w, none) bytes fault = append w bytes fault

unfoldable pub write_record : (FileCall → Bool) → RotatingWriter → List ℕ → Option ℕ → Written
unfolding rotate append
write_record refuses w bytes fault =
    if ltb 0 w.bytes && ltb w.max_bytes (saturating_add w.bytes (length bytes))
    then append_after (rotate refuses w) bytes fault
    else append w bytes fault

-- `RotatingWriter::open`, behind `prune_excess_logs`, where no call is refused.
unfoldable pub open_writer : Files → ℕ → ℕ → Option RotatingWriter
open_writer files max_bytes file_count =
    if (max_bytes == 0)
    then none
    else if file_count == 0
    then none
    else some (record {
      files = put (λ i. if ltb i file_count then files i else none) 0 (some (contents (files 0)));
      is_open = true;
      bytes = length (contents (files 0));
      max_bytes = max_bytes;
      file_count = file_count;
    })
