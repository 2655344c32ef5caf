-- ===== src/Fies/VerifyTests.antt =====
-- A merged file that is read back.
use fie_importer.Prelude.{◌-ℤ◌, ℕ, ◌≡◌, refl, List, [], ◌∷◌, pos}
use fie_importer.Prelude.Time.{seconds, trunc_div, second, unix}
use fie_importer.Fies.File.{File}
use fie_importer.Fies.Verify.{
  MergedRow, want_of, delete, want_from, quotient, seg_of, group_of, groups, group_problems,
  missing, check_groups, has_problems, wrong_count, starts_after_later, verify,
}
use fie_importer.Fies.Verify.Files.{IsVerified, verify-IsVerified}

abbrev file_at : ℕ → ℕ → File
file_at start rows = record {
  path = "fies2a.parquet";
  interval_start = seconds start;
  interval = seconds 900;
  rows = rows;
}

abbrev first_file : File
first_file = file_at 62135597700 2

abbrev second_file : File
second_file = file_at 62135598600 1

abbrev row_at : ℕ → ℕ → MergedRow
row_at pd_id time = record { pd_id = pd_id; capture_time = pos time }

abbrev ordered_rows : List MergedRow
ordered_rows = row_at 4 1200 ∷ row_at 7 900 ∷ row_at 4 1800 ∷ []

abbrev swapped_rows : List MergedRow
swapped_rows = row_at 4 1800 ∷ row_at 4 1200 ∷ []

verify_ordered : verify (first_file ∷ second_file ∷ []) ordered_rows ≡ has_problems []
unfolding verify want_from want_of delete quotient unix seg_of group_of groups group_problems
    missing check_groups ◌-ℤ◌
verify_ordered = refl

verify_swapped :
    verify (first_file ∷ second_file ∷ []) swapped_rows
    ≡ has_problems (wrong_count (pos 0) 1 ∷ starts_after_later (pos 0) 1 ∷ [])
unfolding verify want_from want_of delete quotient unix seg_of group_of groups group_problems
    missing check_groups ◌-ℤ◌
verify_swapped = refl

verify-IsVerified_example :
    IsVerified
      (unix first_file.interval_start)
      (trunc_div first_file.interval second)
      (first_file ∷ second_file ∷ [])
      ordered_rows
unfolding quotient unix ◌-ℤ◌
verify-IsVerified_example =
    verify-IsVerified first_file (second_file ∷ []) ordered_rows ((refl, tt), (tt, tt))
      verify_ordered
