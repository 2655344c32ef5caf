-- ===== src/Fies/Layout.antt =====
-- internal/fies/merge.go: `CheckLayout`, which looks for overlaps and gaps between consecutive files.
pub mod Disjoint
use fie_importer.Prelude.{List, [], ◌∷◌, ◌++◌, if◌then◌else◌}
use fie_importer.Prelude.Time.{Time, before, after}
use fie_importer.Fies.File.{File, end}

-- `nil, err` for the first two consecutive files that overlap, or the warnings for the gaps: each
-- is the end of a file and the start of the next.
pub data Layout : Type 0 where
  overlap : File → File → Layout
  gaps : List (Time × Time) → Layout

-- The loop, with the warnings so far; `prev` is the file before the rest.
unfoldable pub check_from : File → List File → List (Time × Time) → Layout
check_from prev [] found = gaps found
check_from prev (cur ∷ rest) found =
    let found' =
      if after cur.interval_start (end prev)
      then found ++ (end prev, cur.interval_start) ∷ []
      else found in
    let next = check_from cur rest found' in
    if before cur.interval_start (end prev) then overlap prev cur else next

unfoldable pub check_layout : List File → Layout
unfolding check_from
check_layout [] = gaps []
check_layout (f ∷ fs) = check_from f fs []
