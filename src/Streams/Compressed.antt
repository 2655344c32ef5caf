-- ===== src/Streams/Compressed.antt =====
-- deprecated/internal/streams/compressed_fie_stream.go. What DuckDB answers for a file is taken as arguments:
-- `count`, and `query`, the rows and whether an error stands behind them; `none` if a file cannot be opened
-- or closed. `time.Parse` is `parse_time`. A stream is its list of values, `none` for an error.
pub mod Numbered
use fie_importer.Prelude.{
  ℕ, suc, ◌+◌, ◌%◌, ◌^◌, Bool, true, false, Option, none, some, List, [], ◌∷◌, ◌==◌, if◌then◌else◌,
}
use fie_importer.Prelude.Bytes.{Bytes, codes}
use fie_importer.Prelude.Time.{Time}
use fie_importer.Prelude.Sort.{sort}
use fie_importer.Net.{bytes_eq}
use fie_importer.Agents.List.{text_le}
use fie_importer.Text.Shell.{base}

-- The columns of `fies`; near and far addresses are empty for NULL.
pub record Columns : Type 0 where
  pub probing_directive_id : ℕ
  pub near_reply_address : Bytes
  pub far_reply_address : Bytes
  pub capture_second : ℕ
  pub time_deltas : ℕ

-- `api.CompressedFIE`
pub record CompressedFie : Type 0 where
  pub sequence_number : ℕ
  pub columns : Columns
  pub capture_base_time : Time

-- `strings.HasPrefix` and `strings.TrimPrefix`
abbrev pub after_prefix : Bytes → Bytes → Option Bytes
after_prefix [] s = some s
after_prefix (c ∷ p) [] = none
after_prefix (c ∷ p) (d ∷ s) = if c == d then after_prefix p s else none

abbrev cons_to : ℕ → Option Bytes → Option Bytes
cons_to c none = none
cons_to c (some s) = some (c ∷ s)

-- `strings.HasSuffix` and `strings.TrimSuffix`
abbrev pub before_suffix : Bytes → Bytes → Option Bytes
before_suffix p [] = if bytes_eq p [] then some [] else none
before_suffix p (c ∷ s) =
    let rest = cons_to c (before_suffix p s) in if bytes_eq p (c ∷ s) then some [] else rest

abbrev pub next_number : ℕ → ℕ
next_number n = suc n % 2 ^ 64

module _ (parse_time : Bytes → Option Time) where
  -- `parseFIEBaseTime`
  unfoldable pub parse_fie_base_time : Bytes → Option Time
  parse_fie_base_time filename = elim (after_prefix (codes "fies-") (base filename)) [
    | none ↦ none
    | some rest ↦ elim (before_suffix (codes ".duckdb") rest) [
      | none ↦ none
      | some timestamp ↦ parse_time timestamp
    ]
  ]

  -- The loop over `rows.Next()`, with `behind` after its last row
  unfoldable pub read_rows :
      Time → ℕ → List Columns → (ℕ → List (Option CompressedFie)) → List (Option CompressedFie)
  read_rows t n [] behind = behind n
  read_rows t n (r ∷ rows) behind =
      some (record { sequence_number = n; columns = r; capture_base_time = t })
      ∷ read_rows t (next_number n) rows behind

  module _ (query : Bytes → Option (List Columns × Bool)) where
    abbrev read_query :
        Time
        → ℕ
        → Option (List Columns × Bool)
        → (ℕ → List (Option CompressedFie))
        → List (Option CompressedFie)
    read_query t n none behind = none ∷ []
    read_query t n (some (rows, true)) behind = read_rows t n rows (λ m. none ∷ [])
    read_query t n (some (rows, false)) behind = read_rows t n rows behind

    -- `readFile`, with `behind` if it returns true
    unfoldable pub read_file :
        Bytes → ℕ → (ℕ → List (Option CompressedFie)) → List (Option CompressedFie)
    read_file filename n behind = elim (parse_fie_base_time filename) [
      | none ↦ none ∷ []
      | some t ↦ read_query t n (query filename) behind
    ]

    unfoldable pub read_files : List Bytes → ℕ → List (Option CompressedFie)
    read_files [] n = []
    read_files (filename ∷ files) n = read_file filename n (λ m. read_files files m)

    -- `Events`
    unfoldable pub events : List Bytes → List (Option CompressedFie)
    events files = read_files files 0

-- `s.files` of `NewCompressedFIEStream`, from the names that `filepath.Glob` found
unfoldable pub stream_files : List Bytes → List Bytes
unfolding sort text_le
stream_files globbed = sort text_le globbed

abbrev plus_count : Option ℕ → Option ℕ → Option ℕ
plus_count none total = none
plus_count (some n) none = none
plus_count (some n) (some total) = some (n + total)

-- `s.len` of `NewCompressedFIEStream`
unfoldable pub stream_len : (Bytes → Option ℕ) → List Bytes → Option ℕ
stream_len count [] = some 0
stream_len count (filename ∷ files) = plus_count (count filename) (stream_len count files)
