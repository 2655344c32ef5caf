-- ===== src/Fies/Tests.antt =====
-- internal/fies at concrete files and rows, and the theorems at inputs that meet their hypotheses.
use fie_importer.Prelude.{
  ℕ, ◌^◌, ◌≡◌, refl, ◌↔◌, true, false, ◌&&◌, ◌||◌, none, some, List, [], ◌∷◌, map, arith, drop,
  replicate, pos, pos_part, ◌≤ℤ◌, ◌<ℤ◌, ltb_ℤ, leb_ℤ, ◌+ℤ◌, ◌-ℤ◌,
}
use fie_importer.Prelude.Time.{seconds, sub_time}
use fie_importer.Prelude.Bytes.{Bytes}
use fie_importer.Fies.File.{File, end}
use fie_importer.Fies.Window.{window}
use fie_importer.Fies.Window.Rows.{read_rows, all_rows, take_limit, read_rows-window}
use fie_importer.Fies.Row.{recv_time, Raw2a, convert2a}
use fie_importer.Fies.Row.Times.{IsRecvTime, WithinAges, near_reply_recv_time_iff, convert2a_bounds}
use fie_importer.Fies.Filter.{
  Filter, pd_conds, sample_conds, start_conds, end_conds, ceil_seconds, selects, threshold,
}
use fie_importer.Prelude.Double.{number, rounded, nearest, places}
use fie_importer.Fies.Filter.Share.{IsSample}
use fie_importer.Fies.Filter.Select.{keeps_pd, capture_time, selects_lem}
use fie_importer.Fies.Layout.{check_layout, gaps, overlap}

-- Files of 900 seconds, with as many rows as said.
abbrev file_at : ℕ → ℕ → File
file_at start rows = record {
  path = "fies2a-test.parquet";
  interval_start = seconds start;
  interval = seconds 900;
  rows = rows;
}

abbrev three_files : List File
three_files = file_at 1000 3 ∷ file_at 1900 2 ∷ file_at 4000 4 ∷ []

-- Rows are numbers here: the file's rows count up from its start.
abbrev rows_at : File → List ℕ
rows_at f = replicate f.rows (pos_part f.interval_start)

read_rows-window_example :
    read_rows rows_at (window three_files 4 (pos 3))
    ≡ take_limit (pos 3) (drop 4 (all_rows rows_at three_files))
read_rows-window_example = read_rows-window rows_at three_files 4 (pos 3) (omega arith)

window_skips : map (λ r. r.offset) (window three_files 4 (pos 3)) ≡ 1 ∷ 0 ∷ []
unfolding window
window_skips = refl

abbrev v4_bytes : Bytes
v4_bytes = 10 ∷ 0 ∷ 0 ∷ 1 ∷ []

abbrev sample_raw : Raw2a
sample_raw = record {
  pdid = 7;
  capture_second = 30;
  near_reply_addr = v4_bytes;
  far_reply_addr = [];
  near_reply_age_s = some 2;
  far_reply_age_s = none;
  fie_transit_s = some 3;
}

near_reply_recv_time_iff_example :
    ((convert2a sample_raw (seconds 1000)).near_reply_recv_time ≡ some (seconds 1025))
    ↔ IsRecvTime
        (convert2a sample_raw (seconds 1000)).capture_time
        (some 3)
        v4_bytes
        (some 2)
        (seconds 1025)
near_reply_recv_time_iff_example = near_reply_recv_time_iff sample_raw (seconds 1000) (seconds 1025)

near_time_runs : (convert2a sample_raw (seconds 1000)).near_reply_recv_time ≡ some (seconds 1025)
unfolding convert2a recv_time ◌+ℤ◌ ◌-ℤ◌
near_time_runs = refl

convert2a_bounds_example :
    (seconds 1000 ≤ℤ (convert2a sample_raw (seconds 1000)).capture_time)
    × ((convert2a sample_raw (seconds 1000)).capture_time <ℤ seconds 1000 +ℤ seconds (2 ^ 16))
    × WithinAges
        (convert2a sample_raw (seconds 1000)).capture_time
        (convert2a sample_raw (seconds 1000)).near_reply_recv_time
    × WithinAges
        (convert2a sample_raw (seconds 1000)).capture_time
        (convert2a sample_raw (seconds 1000)).far_reply_recv_time
convert2a_bounds_example = convert2a_bounds sample_raw (seconds 1000) (record {
  capture_second = omega arith;
  fie_transit_s = λ x e. ground arith;
  near_reply_age_s = λ x e. ground arith;
  far_reply_age_s = λ x e. cc;
})

abbrev sample_filter : Filter
sample_filter = record {
  pdids = 7 ∷ 9 ∷ [];
  percent = number false 0 0;
  seed = 0;
  start = seconds 1010;
  end = seconds 1031;
}

abbrev no_hash : ℕ → ℕ → ℕ
no_hash pd seed = 0

selects_lem_example :
    (selects no_hash sample_filter (file_at 1000 3) sample_raw ≡ (
      keeps_pd no_hash sample_filter sample_raw
      && ((false || leb_ℤ (seconds 1010) (capture_time (file_at 1000 3) sample_raw))
          && (false || ltb_ℤ (capture_time (file_at 1000 3) sample_raw) (seconds 1031)))))
    × IsSample sample_filter
selects_lem_example =
    selects_lem no_hash sample_filter (file_at 1000 3) sample_raw
      (record { fits = omega arith; in_interval = omega arith })

-- 0.7 % as a double is 6305039478318694 / 2⁵³.
below_seven_thousand : threshold (number false 6305039478318694 53) ≡ 6999
unfolding threshold rounded nearest places
below_seven_thousand = refl

thirty_percent : threshold (number false 30 0) ≡ 300_000
unfolding threshold rounded nearest places
thirty_percent = refl

sample_selected : selects no_hash sample_filter (file_at 1000 3) sample_raw ≡ true
unfolding selects pd_conds sample_conds start_conds end_conds ceil_seconds sub_time ◌-ℤ◌
sample_selected = refl

gap_runs : check_layout three_files ≡ gaps ((seconds 2800, seconds 4000) ∷ [])
unfolding check_layout end ◌+ℤ◌
gap_runs = refl

abbrev crossing : List File
crossing = file_at 1000 3 ∷ file_at 1899 2 ∷ []

crossing_overlaps : check_layout crossing ≡ overlap (file_at 1000 3) (file_at 1899 2)
unfolding check_layout end ◌+ℤ◌
crossing_overlaps = refl
