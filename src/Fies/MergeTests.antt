-- ===== src/Fies/MergeTests.antt =====
-- A merge on a disk in memory.
use fie_importer.Prelude.{◌+ℤ◌, ℕ, ◌≡◌, refl, false, none, List, [], ◌∷◌, length, pos}
use fie_importer.Prelude.Bytes.{codes}
use fie_importer.Prelude.Time.{seconds}
use fie_importer.Clickhouse.Instance.{Tables}
use fie_importer.Fies.File.{File, end}
use fie_importer.Fies.Layout.{check_layout, check_from}
use fie_importer.Fies.Window.Totals.{sum_rows}
use fie_importer.Fies.Merge.{
  MergeOptions, merged, check_output, check_merge, publish, compare_rows, write, merge,
}
use fie_importer.Fies.Merge.Memory.{disk, disk-IsDisk}
use fie_importer.Fies.Merge.Safe.{IsSafe, merge-IsSafe}

-- What DuckDB writes
abbrev copied : List ℕ
copied = 1 ∷ 2 ∷ 3 ∷ []

abbrev file_at : ℕ → ℕ → File
file_at start rows = record {
  path = "fies2a.parquet";
  interval_start = seconds start;
  interval = seconds 900;
  rows = rows;
}

abbrev inputs : List File
inputs = file_at 1000 2 ∷ file_at 1900 1 ∷ []

abbrev options : MergeOptions
options = record { output = codes "out"; overwrite = false; row_group_size = pos 1000 }

abbrev empty : Tables ℕ
empty p = none

merge-IsSafe_example :
    IsSafe
      (disk copied)
      length
      (disk-IsDisk copied)
      (codes "out")
      3
      empty
      (merge (disk copied) inputs options empty)
unfolding sum_rows
merge-IsSafe_example = merge-IsSafe (disk copied) length (disk-IsDisk copied) inputs options empty

merge_runs : (merge (disk copied) inputs options empty).0 ≡ merged 3 2
unfolding merge check_merge check_output check_layout check_from end sum_rows write compare_rows
    publish ◌+ℤ◌
merge_runs = refl
