-- ===== src/Streams/Compressed/Numbered.antt =====
-- The sequence numbers of the rows of a directory.
use fie_importer.Prelude.{
  ℕ, ◌+◌, ◌≡◌, refl, sym, ◌∙◌, inl, inr, Bool, true, false, Option, none, some, List, [], ◌∷◌,
  arith, Option-cases, length,
}
use fie_importer.Prelude.Bytes.{Bytes}
use fie_importer.Prelude.Time.{Time}
use fie_importer.Streams.Items.{errors}
use fie_importer.Streams.Compressed.{
  Columns, CompressedFie, next_number, parse_fie_base_time, read_rows, read_query, read_file,
  read_files, events, stream_len, plus_count,
}

-- The values of a stream carry the numbers from `n` on; an error is its last item.
abbrev pub AreNumbered : ℕ → List (Option CompressedFie) → Type 0
AreNumbered n [] = Unit
AreNumbered n (none ∷ items) = items ≡ []
AreNumbered n (some fie ∷ items) = (fie.sequence_number ≡ n) × AreNumbered (next_number n) items

module _ (parse_time : Bytes → Option Time) (query : Bytes → Option (List Columns × Bool)) where
  read_rows-AreNumbered :
      (t : Time) (n : ℕ) (rows : List Columns) (behind : ℕ → List (Option CompressedFie))
      → ((m : ℕ) → AreNumbered m (behind m))
      → AreNumbered n (read_rows parse_time t n rows behind)
  unfolding read_rows
  read_rows-AreNumbered t n [] behind h = h n
  read_rows-AreNumbered t n (r ∷ rows) behind h =
      (refl, read_rows-AreNumbered t (next_number n) rows behind h)

  read_query-AreNumbered :
      (t : Time) (n : ℕ) (o : Option (List Columns × Bool))
      (behind : ℕ → List (Option CompressedFie))
      → ((m : ℕ) → AreNumbered m (behind m))
      → AreNumbered n (read_query parse_time query t n o behind)
  read_query-AreNumbered t n none behind h = refl
  read_query-AreNumbered t n (some (rows, true)) behind h =
      read_rows-AreNumbered t n rows (λ m. none ∷ []) (λ m. refl)
  read_query-AreNumbered t n (some (rows, false)) behind h = read_rows-AreNumbered t n rows behind h

  read_file-AreNumbered :
      (filename : Bytes) (n : ℕ) (behind : ℕ → List (Option CompressedFie))
      → ((m : ℕ) → AreNumbered m (behind m))
      → AreNumbered n (read_file parse_time query filename n behind)
  unfolding read_file
  read_file-AreNumbered filename n behind h =
      elim (Option-cases (parse_fie_base_time parse_time filename)) [
        | inl bad ↦ rw (read_file, bad) refl
        | inr (t, good) ↦
            rw (read_file, good) (read_query-AreNumbered t n (query filename) behind h)
      ]

  read_files-AreNumbered :
      (files : List Bytes) (n : ℕ) → AreNumbered n (read_files parse_time query files n)
  unfolding read_files
  read_files-AreNumbered [] n = tt
  read_files-AreNumbered (filename ∷ files) n =
      read_file-AreNumbered filename n (λ m. read_files parse_time query files m)
        (λ m. read_files-AreNumbered files m)

  -- The values of the stream are numbered from 0 on through all files, and it ends at its first error.
  pub events-AreNumbered : (files : List Bytes) → AreNumbered 0 (events parse_time query files)
  unfolding events
  events-AreNumbered files = read_files-AreNumbered files 0

  -- What the rows of a file add to the stream
  record Adds (k : ℕ) (behind : ℕ → List (Option CompressedFie))
      (items : List (Option CompressedFie)) : Type 0 where
    next : ℕ
    same_errors : errors items ≡ errors (behind next)
    more_items : length items ≡ k + length (behind next)

  read_rows-Adds :
      (t : Time) (n : ℕ) (rows : List Columns) (behind : ℕ → List (Option CompressedFie))
      → Adds (length rows) behind (read_rows parse_time t n rows behind)
  unfolding read_rows
  read_rows-Adds t n [] behind = record { next = n; same_errors = refl; more_items = omega arith }
  read_rows-Adds t n (r ∷ rows) behind =
      let rest = read_rows-Adds t (next_number n) rows behind in
      record {
        next = rest.next;
        same_errors = rest.same_errors;
        more_items = omega (arith, rest.more_items);
      }

  module _ (count : Bytes → Option ℕ)
      (right : (filename : Bytes) (rows : List Columns)
        → query filename ≡ some (rows, false)
        → count filename ≡ some (length rows)) where
    -- The length so far, where `behind` has the length that `Len` counts for the other files
    query_length :
        (t : Time) (n : ℕ) (filename : Bytes) (o : Option (List Columns × Bool))
        (behind : ℕ → List (Option CompressedFie)) (rest total : ℕ)
        → query filename ≡ o
        → ((m : ℕ) → errors (behind m) ≡ 0 → length (behind m) ≡ rest)
        → plus_count (count filename) (some rest) ≡ some total
        → errors (read_query parse_time query t n o behind) ≡ 0
        → length (read_query parse_time query t n o behind) ≡ total
    query_length t n filename none behind rest total e h counted good = absurd (omega (arith, good))
    query_length t n filename (some (rows, true)) behind rest total e h counted good =
        let added = read_rows-Adds t n rows (λ m. none ∷ []) in
        absurd (omega (arith, good, added.same_errors))
    query_length t n filename (some (rows, false)) behind rest total e h counted good =
        let added = read_rows-Adds t n rows behind in
        let of_file = right filename rows e in
        let sum : length rows + rest ≡ total = cc (rw of_file at counted) in
        omega (arith, sum, added.more_items, h added.next (sym added.same_errors ∙ good))

    file_length :
        (n : ℕ) (filename : Bytes) (behind : ℕ → List (Option CompressedFie)) (rest total : ℕ)
        → ((m : ℕ) → errors (behind m) ≡ 0 → length (behind m) ≡ rest)
        → plus_count (count filename) (some rest) ≡ some total
        → errors (read_file parse_time query filename n behind) ≡ 0
        → length (read_file parse_time query filename n behind) ≡ total
    unfolding read_file
    file_length n filename behind rest total h counted good =
        elim (Option-cases (parse_fie_base_time parse_time filename)) [
          | inl bad ↦ absurd (omega (arith, rw (read_file, bad) at good))
          | inr (t, named) ↦
              rw (read_file, named)
                (query_length t n filename (query filename) behind rest total refl h counted
                  (rw (read_file, named) at good))
        ]

    some_total :
        (one rest : Option ℕ) (total : ℕ)
        → plus_count one rest ≡ some total
        → (k : ℕ) × (rest ≡ some k)
    some_total none rest total h = absurd (cc)
    some_total (some n) none total h = absurd (cc)
    some_total (some n) (some k) total h = (k, refl)

    read_files-length :
        (files : List Bytes) (n total : ℕ)
        → stream_len count files ≡ some total
        → errors (read_files parse_time query files n) ≡ 0
        → length (read_files parse_time query files n) ≡ total
    unfolding read_files stream_len
    read_files-length [] n total counted good = cc
    read_files-length (filename ∷ files) n total counted good =
        let (k, rest) = some_total (count filename) (stream_len count files) total counted in
        file_length n filename (λ m. read_files parse_time query files m) k total
          (λ m fine. read_files-length files m k rest fine) (rw (stream_len, rest) at counted) good

    -- `Len` is the number of values of the stream, if it has no error and each count of
    -- `NewCompressedFIEStream` is that of the rows that are read from the file.
    pub length-events :
        (files : List Bytes) (total : ℕ)
        → stream_len count files ≡ some total
        → errors (events parse_time query files) ≡ 0
        → length (events parse_time query files) ≡ total
    unfolding events
    length-events files total counted good = read_files-length files 0 total counted good
