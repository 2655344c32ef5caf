-- ===== src/Cmd/Watch/Tests.antt =====
-- The ticks of a merge of two files.
use fie_importer.Prelude.{ℕ, ◌≡◌, refl, ◌*◌, ◌/◌, Option, none, some, List, [], ◌∷◌}
use fie_importer.Prelude.Time.{seconds}
use fie_importer.Fies.File.{File}
use fie_importer.Fies.Window.Totals.{sum_rows}
use fie_importer.Cmd.Watch.{Watch, find_file, watch_tick, watch_ticks}
use fie_importer.Cmd.Watch.Shown.{IsShown, watch_ticks-IsShown}

abbrev file_at : ℕ → ℕ → File
file_at start rows = record {
  path = "fies2a.parquet";
  interval_start = seconds start;
  interval = seconds 900;
  rows = rows;
}

abbrev first_file : File
first_file = file_at 0 10

abbrev others : List File
others = file_at 900 5 ∷ []

abbrev not_started : Watch
not_started = record {
  current = 0;
  sent = 0;
  bytes = 0;
  file_idx = 0;
  file_rows = 0;
  file_read = 0;
}

abbrev sizes : List (Option ℕ)
sizes = some 14 ∷ some 42 ∷ []

abbrev rows_in : ℕ → ℕ
rows_in size = size * 2 / 7

watch_runs :
    watch_ticks rows_in (first_file ∷ others) 15 (none ∷ sizes) not_started
    ≡ record { current = 2; sent = 12; bytes = 42; file_idx = 2; file_rows = 5; file_read = 2 }
unfolding watch_ticks watch_tick find_file
watch_runs = refl

watch_ticks-IsShown_example : IsShown (first_file ∷ others) (sum_rows (first_file ∷ others)) (
    watch_ticks rows_in
      (first_file ∷ others)
      (sum_rows (first_file ∷ others))
      (none ∷ sizes)
      not_started)
watch_ticks-IsShown_example =
    watch_ticks-IsShown rows_in first_file others none sizes not_started refl
