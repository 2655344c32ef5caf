-- ===== src/Cmd/Merge.antt =====
-- `runMerge`, `checkOutputPlace` and `merge` of cmd/fie-importer/merge_fies.go. `filepath.Abs`,
-- `filepath.Dir` and the match of the base name with the pattern of inputs are arguments, as are what
-- `Open` and `Plan` return and what DuckDB reads from a file. `Verify` is that of Fies.
pub mod Whole
use fie_importer.Prelude.{
  true, false, [], ◌∷◌, Bool, not, ◌&&◌, Option, none, some, List, if◌then◌else◌, ℤ, pos, ltb_ℤ,
}
use fie_importer.Prelude.Bytes.{Bytes}
use fie_importer.Net.{bytes_eq}
use fie_importer.Fies.File.{File}
use fie_importer.Fies.Layout.{gaps, overlap, check_layout}
use fie_importer.Fies.Merge.{
  Disk, MergeOptions, MergeError, Merged, merged, failed, check_output, merge,
}
use fie_importer.Fies.Verify.{MergedRow, Verification, cannot_verify, panics, has_problems, verify}
use fie_importer.Fies.Source.{SourceError, Sourced, sourced, rejected}

pub data MergeFailure : Type 0 where
  negative_threads no_absolute_path output_is_input overlapping not_verified : MergeFailure
  bad_source : SourceError → MergeFailure
  not_merged : MergeError → MergeFailure

-- `checkOutputPlace`: the absolute directory and output, `none` for an error
unfoldable pub check_output_place :
    (Bytes → Bool) → (Bytes → Bytes) → Option Bytes → Option Bytes → Option MergeFailure
check_output_place is_input dir_of none out = some no_absolute_path
check_output_place is_input dir_of (some dir) none = some no_absolute_path
check_output_place is_input dir_of (some dir) (some out) =
    if is_input out && bytes_eq (dir_of out) dir then some output_is_input else none

module _ {Content : Type 0} (d : Disk Content) where
  -- The command behind the merge: `verified` is whether `Verify` returns nil, for a state of the disk.
  unfoldable pub verify_merged :
      Bool → (d.State → Bool) → Merged × d.State → Option MergeFailure × d.State
  verify_merged verify verified (failed e, a) = (some (not_merged e), a)
  verify_merged verify verified (merged rows files, a) =
      (if verify && not (verified a) then some not_verified else none, a)

  -- From the files on
  unfoldable pub merge_files :
      (List File → d.State → Bool)
      → Sourced (List File)
      → MergeOptions
      → Bool
      → Bool
      → d.State
      → Option MergeFailure × d.State
  unfolding verify_merged
  merge_files verified (rejected e) o dry_run verify a = (some (bad_source e), a)
  merge_files verified (sourced files) o dry_run verify a = elim (check_layout files) [
    | overlap p c ↦ (some overlapping, a)
    | gaps found ↦
        if dry_run then (none, a) else verify_merged verify (verified files) (merge d files o a)
  ]

  abbrev pub unless_stopped :
      Option MergeFailure → Option MergeFailure × d.State → d.State → Option MergeFailure × d.State
  unless_stopped none r a = r
  unless_stopped (some e) r a = (some e, a)

  -- `fies.CheckOutput`, but not in a dry run
  unfoldable pub check_place : Bool → MergeOptions → d.State → Option MergeFailure
  check_place dry_run o a = elim (check_output d o.output o.overwrite a) [
    | none ↦ none
    | some e ↦ if dry_run then none else some (not_merged e)
  ]

  module _ (rows_in : Content → List MergedRow) where
    -- A panic of `Verify` counts as an error, and ends the command as one does.
    abbrev pub no_problems : Verification → Bool
    no_problems (has_problems []) = true
    no_problems (has_problems (p ∷ ps)) = false
    no_problems cannot_verify = false
    no_problems panics = false

    -- DuckDB cannot read an output that is not there.
    abbrev pub verified_content : List File → Option Content → Bool
    verified_content files none = false
    verified_content files (some c) = no_problems (verify files (rows_in c))

    -- Does `src.Verify` of the output return nil?
    abbrev pub is_verified : Bytes → List File → d.State → Bool
    is_verified output files a = verified_content files (d.content a output)

    unfoldable pub run_merge :
        ℤ
        → Option MergeFailure
        → Sourced (List File)
        → MergeOptions
        → Bool
        → Bool
        → d.State
        → Option MergeFailure × d.State
    unfolding merge_files check_place
    run_merge threads place files o dry_run verify a =
        if ltb_ℤ threads (pos 0)
        then (some negative_threads, a)
        else unless_stopped place
            (unless_stopped (check_place dry_run o a)
              (merge_files (is_verified o.output) files o dry_run verify a) a)
            a
