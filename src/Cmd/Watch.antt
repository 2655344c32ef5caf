-- ===== src/Cmd/Watch.antt =====
-- `watchSize` of cmd/fie-importer/merge_fies.go: what a tick of its loop shows. `estimate` is the number of rows that
-- the size of the file stands for, a division in floating point.
pub mod Shown
mod Tests
use fie_importer.Prelude.{
  ℕ, ◌+◌, ◌-◌, min, Option, none, some, List, [], ◌∷◌, leb, ◌==◌, if◌then◌else◌, get_elem?,
}
use fie_importer.Fies.File.{File}

-- `current`, and the fields of the display that the loop sets
pub record Watch : Type 0 where
  pub current : ℕ
  pub sent : ℕ
  pub bytes : ℕ
  pub file_idx : ℕ
  pub file_rows : ℕ
  pub file_read : ℕ

abbrev pub rows_of : Option File → ℕ
rows_of none = 0
rows_of (some f) = f.rows

-- The inner loop, with `before` and `idx` so far and the files from `idx` on
unfoldable pub find_file : ℕ → ℕ → ℕ → List File → ℕ × ℕ
find_file rows before idx [] = (before, idx)
find_file rows before idx (f ∷ []) = (before, idx)
find_file rows before idx (f ∷ g ∷ files) =
    let rest = find_file rows (before + f.rows) (idx + 1) (g ∷ files) in
    if leb (before + f.rows) rows then rest else (before, idx)

-- `disp.File(current, …)`, where the file is another one than at the last tick
abbrev pub announced : List File → ℕ → Watch → Watch
announced files idx w = if idx + 1 == w.current then w else record w {
  current = idx + 1;
  file_idx = idx + 1;
  file_rows = rows_of (get_elem? files idx);
  file_read = 0;
}

-- `info.Size()`, 0 where `os.Stat` fails
abbrev pub size_of : Option ℕ → ℕ
size_of none = 0
size_of (some n) = n

module _ (estimate : ℕ → ℕ) (files : List File) (total : ℕ) where
  -- One tick
  unfoldable pub watch_tick : Option ℕ → Watch → Watch
  unfolding find_file
  watch_tick stat w =
      let size = size_of stat in
      let rows = min (estimate size) total in
      let (before, idx) = find_file rows 0 0 files in
      let shown = announced files idx (record w { sent = rows; bytes = size }) in
      record shown { file_read = rows - before }

  unfoldable pub watch_ticks : List (Option ℕ) → Watch → Watch
  unfolding watch_tick
  watch_ticks [] w = w
  watch_ticks (stat ∷ stats) w = watch_ticks stats (watch_tick stat w)
