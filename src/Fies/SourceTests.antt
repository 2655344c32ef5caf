-- ===== src/Fies/SourceTests.antt =====
-- A plan of two files.
use fie_importer.Prelude.{ℕ, ◌≡◌, refl, Option, some, List, [], ◌∷◌, length, negsuc}
use fie_importer.Prelude.Time.{seconds}
use fie_importer.Fies.File.{File}
use fie_importer.Fies.Source.{sourced, plan, seconds_duration}

abbrev file_at : ℕ → ℕ → File
file_at start rows = record {
  path = "fies2a.parquet";
  interval_start = seconds start;
  interval = seconds 900;
  rows = rows;
}

-- Each file has three rows here.
abbrev rows_at : File → List ℕ
rows_at f = 1 ∷ 2 ∷ 3 ∷ []

abbrev three : File → Option ℕ
three f = some 3

three_right : (f : File) (n : ℕ) → three f ≡ some n → n ≡ length (rows_at f)
three_right f n h = cc

two_planned :
    plan three (file_at 1000 0 ∷ file_at 1900 0 ∷ [])
    ≡ sourced (file_at 1000 3 ∷ file_at 1900 3 ∷ [])
unfolding plan
two_planned = refl

-- A length of 9223372037 seconds wraps around int64 to a negative one.
interval_wraps : seconds_duration 9_223_372_037 ≡ negsuc 9_223_372_036_709_551_615
unfolding seconds_duration
interval_wraps = refl
