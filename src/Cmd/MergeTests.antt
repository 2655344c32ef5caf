-- ===== src/Cmd/MergeTests.antt =====
-- merge-fies of two files, verified.
use fie_importer.Prelude.{
  ℕ, ◌≡◌, refl, true, false, none, some, List, [], ◌∷◌, arith, length, pos, ◌+ℤ◌, ◌-ℤ◌,
}
use fie_importer.Prelude.Bytes.{codes}
use fie_importer.Prelude.Time.{seconds, unix}
use fie_importer.Clickhouse.Instance.{Tables}
use fie_importer.Fies.File.{File, end}
use fie_importer.Fies.Layout.{check_layout, check_from}
use fie_importer.Fies.Window.Totals.{sum_rows}
use fie_importer.Fies.Source.{Sourced, sourced}
use fie_importer.Fies.Merge.{
  MergeOptions, check_output, check_merge, publish, compare_rows, write, merge,
}
use fie_importer.Fies.Merge.Memory.{disk, disk-IsDisk}
use fie_importer.Fies.Verify.{
  MergedRow, quotient, want_of, delete, want_from, seg_of, group_of, groups, group_problems,
  missing, check_groups, verify,
}
use fie_importer.Cmd.Merge.{not_verified, verify_merged, merge_files, check_place, run_merge}
use fie_importer.Cmd.Merge.Whole.{IsMergeOf, run_merge-IsMergeOf}

abbrev file_at : ℕ → ℕ → File
file_at start rows = record {
  path = "fies2a.parquet";
  interval_start = seconds start;
  interval = seconds 900;
  rows = rows;
}

abbrev source : Sourced (List File)
source = sourced (file_at 62135597700 2 ∷ file_at 62135598600 1 ∷ [])

abbrev row_at : ℕ → ℕ → MergedRow
row_at pd_id time = record { pd_id = pd_id; capture_time = pos time }

abbrev in_order : List MergedRow
in_order = row_at 4 1200 ∷ row_at 7 900 ∷ row_at 4 1800 ∷ []

abbrev out_of_order : List MergedRow
out_of_order = row_at 7 900 ∷ row_at 4 1200 ∷ row_at 4 1800 ∷ []

abbrev options : MergeOptions
options = record { output = codes "out"; overwrite = false; row_group_size = pos 1000 }

abbrev empty : Tables MergedRow
empty p = none

run_merge-IsMergeOf_example :
    IsMergeOf
      (disk in_order)
      length
      (disk-IsDisk in_order)
      (λ rows. rows)
      options
      source
      true
      empty
      (run_merge (disk in_order) (λ rows. rows) (pos 4) none source options false true empty).1
unfolding run_merge merge_files check_place verify_merged merge check_merge check_output
    check_layout check_from end sum_rows write compare_rows publish verify want_from want_of delete
    quotient unix seg_of group_of groups group_problems missing check_groups ◌+ℤ◌ ◌-ℤ◌
run_merge-IsMergeOf_example =
    run_merge-IsMergeOf (disk in_order) length (disk-IsDisk in_order) (λ rows. rows) options (pos 4)
      none source true empty (omega arith, (omega arith, tt)) refl

order_checked :
    (run_merge (disk out_of_order) (λ rows. rows) (pos 4) none source options false true empty).0
    ≡ some not_verified
unfolding run_merge merge_files check_place verify_merged merge check_merge check_output
    check_layout check_from end sum_rows write compare_rows publish verify want_from want_of delete
    quotient unix seg_of group_of groups group_problems missing check_groups ◌+ℤ◌ ◌-ℤ◌
order_checked = refl

order_unchecked :
    (run_merge (disk out_of_order) (λ rows. rows) (pos 4) none source options false false empty).0
    ≡ none
unfolding run_merge merge_files check_place verify_merged merge check_merge check_output
    check_layout check_from end sum_rows write compare_rows publish ◌+ℤ◌
order_unchecked = refl
