-- ===== src/Fies/Merge.antt =====
-- internal/fies/merge.go: `CheckOutput` and `Merge`, over the disk and DuckDB as an interface with laws.
pub mod Memory
pub mod Safe
use fie_importer.Prelude.{
  ℕ, Bool, not, Option, none, some, List, ◌++◌, ◌==◌, if◌then◌else◌, length, is_empty, ℤ, pos,
  ltb_ℤ,
}
use fie_importer.Prelude.Bytes.{Bytes, codes}
use fie_importer.Fies.File.{File}
use fie_importer.Fies.Window.Totals.{sum_rows}
use fie_importer.Fies.Layout.{Layout, gaps, overlap, check_layout}

-- `os.Stat`: there is such a file, there is none, or another error
pub data Stat : Type 0 where
  present missing unreadable : Stat

pub record MergeOptions : Type 0 where
  pub output : Bytes
  pub overwrite : Bool
  pub row_group_size : ℤ

pub data MergeError : Type 0 where
  no_files bad_row_group_size output_exists cannot_stat files_overlap bad_setting : MergeError
  cannot_write cannot_read_back : MergeError
  wrong_rows : ℕ → ℕ → MergeError
  cannot_rename cannot_stat_output : MergeError

pub data Merged : Type 0 where
  merged : ℕ → ℕ → Merged
  failed : MergeError → Merged

pub record Disk (Content : Type 0) : Type 1 where
  pub State : Type 0
  pub content : State → Bytes → Option Content
  pub stat : Bytes → State → Stat
  -- `os.Remove`, whose error is ignored
  pub remove : Bytes → State → State
  pub rename : Bytes → Bytes → State → Bool × State
  -- the SET statements of `applySettings`
  pub settings : State → Bool
  -- COPY of all rows of the files to a path
  pub copy : Bytes → State → Bool × State
  -- `num_rows` of the metadata of a file
  pub num_rows : Bytes → State → Option ℕ

-- `opts.Output + ".tmp"`
abbrev pub temporary : Bytes → Bytes
temporary output = output ++ codes ".tmp"

-- The result behind the last `os.Stat`.
abbrev pub published : Stat → ℕ → ℕ → Merged
published present total files = merged total files
published missing total files = failed cannot_stat_output
published unreadable total files = failed cannot_stat_output

module _ {Content : Type 0} (d : Disk Content) where
  open d use {State, stat, remove, rename, settings, copy, num_rows}

  -- `CheckOutput`: `none` is no error.
  unfoldable pub check_output : Bytes → Bool → State → Option MergeError
  check_output path overwrite a = elim (stat path a) [
    | present ↦ if overwrite then none else some output_exists
    | missing ↦ none
    | unreadable ↦ some cannot_stat
  ]

  -- From the rename on; `total` rows were written.
  unfoldable pub publish : Bytes → ℕ → ℕ → State → Merged × State
  publish output total files a =
      let (renamed, b) = rename (temporary output) output a in
      if not renamed then (failed cannot_rename, b) else (published (stat output b) total files, b)

  -- The number of rows that were written, against the total.
  unfoldable pub compare_rows : Option ℕ → Bytes → ℕ → ℕ → State → Merged × State
  unfolding publish
  compare_rows none output total files a = (failed cannot_read_back, remove (temporary output) a)
  compare_rows (some got) output total files a =
      if got == total
      then publish output total files a
      else (failed (wrong_rows got total), remove (temporary output) a)

  -- From the COPY on.
  unfoldable pub write : Bytes → ℕ → ℕ → State → Merged × State
  unfolding compare_rows
  write output total files a =
      let (copied, b) = copy (temporary output) (remove (temporary output) a) in
      if not copied
      then (failed cannot_write, remove (temporary output) b)
      else compare_rows (num_rows (temporary output) b) output total files b

  -- The checks before anything is written
  unfoldable pub check_merge : List File → MergeOptions → State → Option MergeError
  unfolding check_output
  check_merge files o a =
      if is_empty files
      then some no_files
      else if ltb_ℤ o.row_group_size (pos 1)
      then some bad_row_group_size
      else elim (check_output o.output o.overwrite a) [
        | some e ↦ some e
        | none ↦ elim (check_layout files) [
          | overlap p c ↦ some files_overlap
          | gaps found ↦ if settings a then none else some bad_setting
        ]
      ]

  abbrev pub unless_failed : Option MergeError → Merged × State → State → Merged × State
  unless_failed none r a = r
  unless_failed (some e) r a = (failed e, a)

  unfoldable pub merge : List File → MergeOptions → State → Merged × State
  unfolding check_merge write
  merge files o a =
      unless_failed (check_merge files o a) (write o.output (sum_rows files) (length files) a) a
