-- ===== src/Streams/Raw/Lines.antt =====
-- The events of a file that was written line by line.
use fie_importer.Prelude.{
  length-map, ◌≡◌, refl, sym, ap, ◌∙◌, Bool, false, Option, some, List, [], ◌∷◌, ◌++◌, map, ◌==◌,
  length, length-append, All,
}
use fie_importer.Prelude.Bytes.{Bytes}
use fie_importer.Streams.Raw.{
  newline, carriage_return, read_lines, without_last, trim_newline, raw_events, count_events,
}

-- A text of one line: no newline in it, and no carriage return at its end.
abbrev HasNoNewline : Bytes → Type 0
HasNoNewline s = All (λ c. (c == newline) ≡ false) s

abbrev EndsPlain : Bytes → Type 0
EndsPlain [] = Unit
EndsPlain (c ∷ []) = (c == carriage_return) ≡ false
EndsPlain (c ∷ d ∷ s) = EndsPlain (d ∷ s)

abbrev pub IsLine : Bytes → Type 0
IsLine s = HasNoNewline s × EndsPlain s

-- The file with these lines
abbrev pub written : List Bytes → Bytes
written [] = []
written (l ∷ ls) = l ++ newline ∷ written ls

read_lines-written_line :
    (l rest : Bytes)
    → HasNoNewline l
    → read_lines (l ++ newline ∷ rest) ≡ (l ++ newline ∷ []) ∷ read_lines rest
unfolding read_lines
read_lines-written_line [] rest h = refl
read_lines-written_line (c ∷ l) rest (hc, h) = rw (hc, read_lines-written_line l rest h) refl

without_last-newline : (l : Bytes) → without_last newline (l ++ newline ∷ []) ≡ l
unfolding without_last
without_last-newline [] = refl
without_last-newline (c ∷ []) = refl
without_last-newline (c ∷ d ∷ l) = ap (λ s. c ∷ s) (without_last-newline (d ∷ l))

without_last-plain : (l : Bytes) → EndsPlain l → without_last carriage_return l ≡ l
unfolding without_last
without_last-plain [] h = refl
without_last-plain (c ∷ []) h = rw h refl
without_last-plain (c ∷ d ∷ l) h = ap (λ s. c ∷ s) (without_last-plain (d ∷ l) h)

trim_newline-line : (l : Bytes) → IsLine l → trim_newline (l ++ newline ∷ []) ≡ l
unfolding trim_newline
trim_newline-line l (h, plain) =
    ap (λ s. without_last carriage_return s) (without_last-newline l) ∙ without_last-plain l plain

trimmed_lines :
    (lines : List Bytes)
    → All IsLine lines
    → map (λ l. some (trim_newline l)) (read_lines (written lines)) ≡ map (λ l. some l) lines
unfolding read_lines
trimmed_lines [] h = refl
trimmed_lines (l ∷ lines) (hl, h) =
    ap (λ ls. map (λ l. some (trim_newline l)) ls) (read_lines-written_line l (written lines) hl.0)
    ∙ ap (λ s. some s ∷ map (λ l. some (trim_newline l)) (read_lines (written lines)))
        (trim_newline-line l hl)
    ∙ ap (λ ls. some l ∷ ls) (trimmed_lines lines h)

-- The files of a directory in order: their names and their lines
abbrev pub Directory : Type 0
Directory = List (Bytes × List Bytes)

abbrev pub all_lines : Directory → List Bytes
all_lines [] = []
all_lines ((name, lines) ∷ files) = lines ++ all_lines files

map_append :
    (xs ys : List Bytes)
    → map (λ l. some l) (xs ++ ys) ≡ map (λ l. some l) xs ++ map (λ (l : Bytes). some l) ys
map_append [] ys = refl
map_append (x ∷ xs) ys = ap (λ ls. some x ∷ ls) (map_append xs ys)

length-read_lines :
    (lines : List Bytes) → All IsLine lines → length (read_lines (written lines)) ≡ length lines
length-read_lines lines h =
    sym (length-map (λ l. some (trim_newline l)) (read_lines (written lines)))
    ∙ ap length (trimmed_lines lines h)
    ∙ length-map (λ l. some l) lines

module _ (open_file : Bytes → Option (Bytes × Bool)) where
  -- A file that can be read to its end and was written line by line
  abbrev pub IsWritten : Bytes × List Bytes → Type 0
  IsWritten (name, lines) = (open_file name ≡ some (written lines, false)) × All IsLine lines

  -- The events of files that were written line by line are these lines, in order and without their newlines,
  -- and `Len` is their number.
  pub raw_events-written :
      (files : Directory)
      → All IsWritten files
      → (raw_events open_file (map (λ f. f.0) files) ≡ map (λ l. some l) (all_lines files))
        × (count_events open_file (map (λ f. f.0) files) ≡ some (length (all_lines files)))
  unfolding raw_events count_events
  raw_events-written [] h = (refl, refl)
  raw_events-written ((name, lines) ∷ files) ((read, all), h) =
      let (events, count) = raw_events-written files h in
      (
        rw (read, events, trimmed_lines lines all) (sym (map_append lines (all_lines files))),
        rw (read, count, length-read_lines lines all)
            (ap (λ n. some n) (sym (length-append lines (all_lines files)))),
      )
