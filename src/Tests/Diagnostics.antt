-- ===== src/Tests/Diagnostics.antt =====
-- A log of two files of ten bytes, and a histogram.
use quest_vd_wired.Common.{
  zero, suc, ◌≡◌, refl, true, none, some, Bool, false, arith, replicate, inr,
}
use quest_vd_wired.Diagnostics.Rotation.{FileCall, RotatingWriter, Files, write_record}
use quest_vd_wired.Diagnostics.Bounded.{AllFit, IsBounded, write-IsBounded}

abbrev two_files : Files
two_files zero = some (replicate 8 65)
two_files (suc zero) = some (replicate 9 66)
two_files (suc (suc i)) = none

abbrev writer : RotatingWriter
writer = record { files = two_files; is_open = true; bytes = 8; max_bytes = 10; file_count = 2 }

abbrev never : FileCall → Bool
never c = false

-- The third record makes the log rotate, and the oldest file goes.
rotated : (write_record never writer (replicate 5 67) none).0.files 1 ≡ some (replicate 8 65)
unfolding write_record
rotated = refl

writer-IsBounded : IsBounded writer
writer-IsBounded = record {
  fits = fits;
  some_file = omega arith;
  size_is_u64 = omega arith;
  counted = inr refl;
}
  where
    fits : AllFit 2 10 two_files
    fits zero = (omega arith, omega arith)
    fits (suc zero) = (omega arith, omega arith)
    fits (suc (suc i)) = tt

write-IsBounded_example : IsBounded (write_record never writer (replicate 5 67) none).0
write-IsBounded_example =
    write-IsBounded never writer (replicate 5 67) (omega arith) writer-IsBounded
