-- ===== src/Cmd/Watch/Shown.antt =====
-- What the ticks show is true of the files.
use fie_importer.Prelude.{
  ℕ, suc, ◌+◌, ◌-◌, ◌≤◌, min, ◌≡◌, refl, sym, ap, ◌∙◌, ◌⊎◌, inl, inr, Option, some, List, [], ◌∷◌,
  arith, leb, ◌==◌, Bool-cases, leb→le, get_elem?, take,
}
use fie_importer.Fies.File.{File}
use fie_importer.Fies.Window.Totals.{sum_rows}
use fie_importer.Cmd.Watch.{Watch, rows_of, size_of, find_file, announced, watch_tick, watch_ticks}

-- The number of rows of the files in front of one
abbrev pub rows_before : List File → ℕ → ℕ
rows_before files idx = sum_rows (take idx files)

-- The file of a row, by its index and the rows in front of it
pub record IsFound (rows start from : ℕ) (files : List File) (before idx : ℕ) : Type 0 where
  pub at : ℕ
  pub is_at : idx ≡ from + at
  pub in_front : before ≡ start + rows_before files at
  pub reached : before ≤ rows
  pub file : File
  pub is_file : get_elem? files at ≡ some file
  pub inside : rows ≤ before + file.rows

find_file-IsFound :
    (rows start from : ℕ) (f : File) (files : List File)
    → start ≤ rows
    → rows ≤ start + sum_rows (f ∷ files)
    → IsFound rows start from
        (f ∷ files)
        (find_file rows start from (f ∷ files)).0
        (find_file rows start from (f ∷ files)).1
unfolding find_file sum_rows
find_file-IsFound rows start from f [] h k = record {
  at = 0;
  is_at = omega arith;
  in_front = omega arith;
  reached = h;
  file = f;
  is_file = refl;
  inside = omega (arith, k);
}
find_file-IsFound rows start from f (g ∷ files) h k =
    elim (Bool-cases (leb (start + f.rows) rows)) [
      | inl e ↦
          let next =
            find_file-IsFound rows (start + f.rows) (from + 1) g files (leb→le _ _ e)
              (omega (arith, k)) in
          rw (find_file, e)
            (record {
              at = suc next.at;
              is_at = omega (arith, next.is_at);
              in_front = omega (arith, next.in_front);
              reached = next.reached;
              file = next.file;
              is_file = next.is_file;
              inside = next.inside;
            })
      | inr e ↦
          rw (find_file, e)
            (record {
              at = 0;
              is_at = omega arith;
              in_front = omega arith;
              reached = h;
              file = f;
              is_file = refl;
              inside = ground arith;
            })
    ]

-- The file that was announced last
pub record IsAnnounced (files : List File) (w : Watch) : Type 0 where
  pub index : ℕ
  pub file : File
  pub is_current : w.current ≡ index + 1
  pub is_shown : w.file_idx ≡ index + 1
  pub is_file : get_elem? files index ≡ some file
  pub all_rows : w.file_rows ≡ file.rows

-- What is shown of a merge
pub record IsShown (files : List File) (total : ℕ) (w : Watch) : Type 0 where
  pub announced_file : IsAnnounced files w
  pub read_inside : w.file_read ≤ w.file_rows
  pub sent_rows : w.sent ≡ rows_before files announced_file.index + w.file_read
  pub not_above : w.sent ≤ total

abbrev pub IsWatching : List File → Watch → Type 0
IsWatching files w = (w.current ≡ 0) ⊎ IsAnnounced files w

-- A file of an index is announced, or it was before.
announced-IsAnnounced :
    (files : List File) (idx : ℕ) (w : Watch) (f : File)
    → get_elem? files idx ≡ some f
    → IsWatching files w
    → IsAnnounced files (announced files idx w)
      × ((announced files idx w).current ≡ idx + 1)
      × ((announced files idx w).sent ≡ w.sent)
announced-IsAnnounced files idx w f at old = elim (Bool-cases (idx + 1 == w.current)) [
  | inr e ↦
      rw (announced, e)
        (
          record {
            index = idx;
            file = f;
            is_current = refl;
            is_shown = refl;
            is_file = at;
            all_rows = rw at refl;
          },
          refl,
          refl,
        )
  | inl e ↦
      let now : w.current ≡ idx + 1 = ground arith in
      elim old [ inl none_yet ↦ absurd (omega arith) | inr a ↦ rw (announced, e) (a, now, refl) ]
]

watching :
    (files : List File) (w : Watch) (rows size : ℕ)
    → IsWatching files w
    → IsWatching files (record w { sent = rows; bytes = size })
watching files w rows size (inl e) = inl e
watching files w rows size (inr a) = inr (record {
  index = a.index;
  file = a.file;
  is_current = a.is_current;
  is_shown = a.is_shown;
  is_file = a.is_file;
  all_rows = a.all_rows;
})

-- The fields behind a search for the file of `rows`
found-IsShown :
    (files : List File) (total rows size before idx : ℕ) (w : Watch)
    → rows ≤ total
    → IsFound rows 0 0 files before idx
    → IsWatching files w
    → IsShown files total (record (announced files idx (record w { sent = rows; bytes = size })) {
      file_read = rows - before;
    })
found-IsShown files total rows size before idx w low found old =
    let same : idx ≡ found.at = omega (arith, found.is_at) in
    let (a, current, kept) =
      announced-IsAnnounced files idx (record w { sent = rows; bytes = size }) found.file
        (rw same found.is_file) (watching files w rows size old) in
    let here : a.index ≡ found.at = omega (arith, a.is_current, current, same) in
    let its_file : some a.file ≡ some found.file =
      sym a.is_file ∙ ap (get_elem? files) here ∙ found.is_file in
    let its_rows : a.file.rows ≡ found.file.rows = ap (λ o. rows_of o) its_file in
    record {
      announced_file = record {
        index = a.index;
        file = a.file;
        is_current = a.is_current;
        is_shown = a.is_shown;
        is_file = a.is_file;
        all_rows = a.all_rows;
      };
      read_inside = omega (arith, a.all_rows, its_rows, found.inside);
      sent_rows = kept ∙ omega (arith, found.in_front, found.reached, ap (rows_before files) here);
      not_above = rw kept low;
    }

module _ (estimate : ℕ → ℕ) (f : File) (files : List File) where
  tick-IsShown :
      (stat : Option ℕ) (w : Watch)
      → IsWatching (f ∷ files) w
      → IsShown
          (f ∷ files)
          (sum_rows (f ∷ files))
          (watch_tick estimate (f ∷ files) (sum_rows (f ∷ files)) stat w)
  unfolding watch_tick
  tick-IsShown stat w old =
      found-IsShown (f ∷ files) (sum_rows (f ∷ files)) _ (size_of stat) _ _ w (omega arith)
        (find_file-IsFound (min (estimate (size_of stat)) (sum_rows (f ∷ files))) 0 0 f files
          (omega arith) (omega arith))
        old

  all_ticks :
      (stats : List (Option ℕ)) (w : Watch)
      → IsShown (f ∷ files) (sum_rows (f ∷ files)) w
      → IsShown
          (f ∷ files)
          (sum_rows (f ∷ files))
          (watch_ticks estimate (f ∷ files) (sum_rows (f ∷ files)) stats w)
  unfolding watch_ticks
  all_ticks [] w h = h
  all_ticks (stat ∷ stats) w h = all_ticks stats _ (tick-IsShown stat w (inr h.announced_file))

  -- However the sizes of the growing file come out, after every tick the display shows an input file with its own
  -- number of rows; the rows that are shown as read from it are not more than it has, and they and the rows of
  -- the files in front of it are the rows that are shown as written, which are not more than there are.
  pub watch_ticks-IsShown :
      (stat : Option ℕ) (stats : List (Option ℕ)) (w : Watch)
      → w.current ≡ 0
      → IsShown
          (f ∷ files)
          (sum_rows (f ∷ files))
          (watch_ticks estimate (f ∷ files) (sum_rows (f ∷ files)) (stat ∷ stats) w)
  unfolding watch_ticks
  watch_ticks-IsShown stat stats w first = all_ticks stats _ (tick-IsShown stat w (inl first))
