-- ===== src/Cmd/UploadPds.antt =====
-- `runUploadPDs` and `openPDs` of cmd/fie-importer/upload_pds.go. What reading the opened file to its
-- end gives is `read`; `opened` is whether it could be opened.
use fie_importer.Prelude.{ℕ, Bool, not, none, some, List, if◌then◌else◌, ℤ, pos, ltb_ℤ}
use fie_importer.Prelude.Bytes.{Bytes}
use fie_importer.Pds.Parse.{Row}
use fie_importer.Pds.Reader.{Next}
use fie_importer.Clickhouse.Names.{validate_table_name}
use fie_importer.Clickhouse.Server.{Server}
use fie_importer.Cmd.Error.{
  Failure, invalid_table_name, bad_batch_size, cannot_open_pds, no_pds, pds_invalid,
}
use fie_importer.Cmd.PdStats.{DryRun, invalid_file, empty_file, summary, dry_run_pds}
use fie_importer.Cmd.Upload.{upload_pds}

-- The error of a dry run
unfoldable pub dry_run_failure : DryRun → Failure
dry_run_failure invalid_file = some pds_invalid
dry_run_failure empty_file = some no_pds
dry_run_failure (summary stats) = none

module _ (s : Server Row) (user_set : Bool) where
  unfoldable pub run_upload_pds :
      Bytes
      → ℤ
      → Bool
      → List Row × Next
      → Bool
      → (s.State → (Bool × ℕ) × s.State)
      → Bool
      → s.State
      → Failure × s.State
  unfolding dry_run_failure
  run_upload_pds name batch_size opened read dry_run transfer drop_on_fail a =
      if not (validate_table_name name)
      then (some invalid_table_name, a)
      else if ltb_ℤ batch_size (pos 1)
      then (some bad_batch_size, a)
      else if not opened
      then (some cannot_open_pds, a)
      else if dry_run
      then (dry_run_failure (dry_run_pds read), a)
      else upload_pds s user_set name transfer drop_on_fail a
