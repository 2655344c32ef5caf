-- ===== src/Fies/Source.antt =====
-- internal/fies/source.go: `Open`, `init`, `readMetadata`, `Plan` and `Rows`. The directory's paths, the
-- key-value metadata of a file, `time.Parse` and the rows of a file are arguments, `none` for errors.
pub mod Planned
pub mod Opened
pub mod Selected
use fie_importer.Prelude.{
  ℕ, ◌-◌, ◌*◌, ◌%◌, ◌^◌, Bool, not, Option, none, some, List, [], ◌∷◌, ltb, leb, if◌then◌else◌,
  length, is_empty, pos, negsuc, keep_if,
}
use fie_importer.Prelude.Time.{Time, Duration, after, second}
use fie_importer.Prelude.Bytes.{Bytes, codes}
use fie_importer.Prelude.Sort.{sort, compact}
use Prim.Native.String.{String}
use fie_importer.Net.{bytes_eq}
use fie_importer.Text.Decimal.{parse_positive}
use fie_importer.Fies.File.{File}
use fie_importer.Fies.Row.{Raw2a, format_2a}
use fie_importer.Fies.Filter.{Filter, FilterError, validate, overlaps, selects}

pub data SourceError : Type 0 where
  bad_filter : FilterError → SourceError
  no_paths cannot_read_metadata wrong_format bad_interval_start bad_interval_length : SourceError
  cannot_count : SourceError

pub data Sourced {ℓ} (A : Type ℓ) : Type ℓ where
  sourced : A → Sourced A
  rejected : SourceError → Sourced A

-- `meta`, with what was set last in front
abbrev pub Metadata : Type 0
Metadata = List (Bytes × Bytes)

-- `meta[k]`
unfoldable pub meta : Bytes → Metadata → Bytes
meta k [] = []
meta k ((x, v) ∷ rest) = if bytes_eq k x then v else meta k rest

-- `time.Duration(seconds) * time.Second` on int64
unfoldable pub seconds_duration : ℕ → Duration
seconds_duration n =
    let m = n * second % 2 ^ 64 in if ltb m (2 ^ 63) then pos m else negsuc (2 ^ 64 - m - 1)

module _ (parse_time : Bytes → Option Time) where
  -- The file, from the start and the length that its metadata give.
  unfoldable pub file_of : String → Option Time → Option ℕ → Sourced File
  unfolding seconds_duration
  file_of path none length = rejected bad_interval_start
  file_of path (some start) none = rejected bad_interval_length
  file_of path (some start) (some n) =
      sourced
        (record { path = path; interval_start = start; interval = seconds_duration n; rows = 0 })

  -- `readMetadata`
  unfoldable pub read_metadata : String → Option Metadata → Sourced File
  unfolding meta file_of
  read_metadata path none = rejected cannot_read_metadata
  read_metadata path (some m) =
      if bytes_eq (meta (codes "retina.fies.format") m) (codes format_2a)
      then file_of path (parse_time (meta (codes "retina.fies.interval_start") m))
          (parse_positive (2 ^ 63 - 1) (meta (codes "retina.fies.interval_seconds") m))
      else rejected wrong_format

-- `if s.overlaps(&f) { s.files = append(s.files, f) }` before the files behind it
abbrev pub with_file : Filter → Sourced File → Sourced (List File) → Sourced (List File)
with_file flt (rejected e) rest = rejected e
with_file flt (sourced f) (rejected e) = rejected e
with_file flt (sourced f) (sourced files) = sourced (if overlaps flt f then f ∷ files else files)

abbrev pub starts_before : File → File → Bool
starts_before f g = not (after f.interval_start g.interval_start)

-- `slices.SortFunc` by start. It may put files of one start in any order; this keeps theirs.
abbrev pub sorted_files : Sourced (List File) → Sourced (List File)
sorted_files (rejected e) = rejected e
sorted_files (sourced files) = sourced (sort starts_before files)

-- `slices.Compact(slices.Sorted(…))`, the rows of `pd_filter`
unfoldable pub pd_filter : Filter → List ℕ
unfolding sort compact
pd_filter flt = compact (sort leb flt.pdids)

module _ (parse_time : Bytes → Option Time) (metadata : String → Option Metadata) where
  -- The loop of `init`
  unfoldable pub read_files : Filter → List String → Sourced (List File)
  unfolding read_metadata
  read_files flt [] = sourced []
  read_files flt (path ∷ paths) =
      with_file flt (read_metadata parse_time path (metadata path)) (read_files flt paths)

  -- `Open`, with the paths that `filepath.Glob` found
  unfoldable pub open_source : Filter → List String → Sourced (List File)
  unfolding read_files sort
  open_source flt paths = elim (validate flt) [
    | some e ↦ rejected (bad_filter e)
    | none ↦ if is_empty paths then rejected no_paths else sorted_files (read_files flt paths)
  ]

module _ (hash : ℕ → ℕ → ℕ) (data_of : String → List Raw2a) (flt : Filter) where
  -- `SELECT … FROM read_parquet(?) WHERE …`, in file order
  abbrev pub rows_of : File → List Raw2a
  rows_of f = keep_if (selects hash flt f) (data_of f.path)

abbrev pub counted : File → Option ℕ → Sourced (List File) → Sourced (List File)
counted f none rest = rejected cannot_count
counted f (some n) (rejected e) = rejected e
counted f (some n) (sourced files) = sourced (record f { rows = n } ∷ files)

-- `Plan`; `count` is the count of a file's rows behind the filter.
unfoldable pub plan : (File → Option ℕ) → List File → Sourced (List File)
plan count [] = sourced []
plan count (f ∷ files) = counted f (count f) (plan count files)
