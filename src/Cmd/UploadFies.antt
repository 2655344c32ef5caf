-- ===== src/Cmd/UploadFies.antt =====
-- `runUpload` of cmd/fie-importer/upload_fies.go, from its options to the table.
pub mod Options
pub mod Whole
pub mod Directory
pub mod DryRun
use fie_importer.Prelude.{
  ℕ, Bool, none, some, List, [], ◌∷◌, ◌++◌, map, if◌then◌else◌, take, drop, ℤ, pos_part,
}
use fie_importer.Prelude.Bytes.{Bytes}
use fie_importer.Prelude.Time.{Time}
use fie_importer.Fies.File.{File}
use fie_importer.Fies.Window.{Read, window}
use fie_importer.Fies.Window.Totals.{total_limit}
use fie_importer.Fies.Row.{Row, Raw2a, convert2a}
use fie_importer.Clickhouse.Server.{Server}
use fie_importer.Cmd.Error.{Error, Failure, Result, ok, err}
use fie_importer.Cmd.Upload.{check_upload, upload}

-- `uploadOptions`, without its filters and files
pub record UploadOptions : Type 0 where
  pub table : Bytes
  pub offset : ℤ
  pub limit : ℤ
  pub batch_size : ℤ
  pub drop_on_fail : Bool
  pub dry_run : Bool

-- The rows that `transfer` appends to its batches; `rows_of` is what a file has behind the filters.
unfoldable pub transfer_rows : (File → List Raw2a) → List Read → List Row
transfer_rows rows_of [] = []
transfer_rows rows_of (r ∷ reads) =
    map (λ raw. convert2a raw r.file.interval_start) (take r.limit (drop r.offset (rows_of r.file)))
    ++ transfer_rows rows_of reads

module _ (s : Server Row) (user_set : Bool) where
  open s use {State}

  -- `if err != nil { return err }` before the rest, whose result is `r`.
  unfoldable pub unless : Failure → Failure × State → State → Failure × State
  unless none r a = r
  unless (some e) r a = (some e, a)

  -- The `Result` is what `filter`, `Open` and `Plan` return: the files, or an error.
  unfoldable pub run_upload :
      (File → List Raw2a)
      → (List Row → State → (Bool × ℕ) × State)
      → UploadOptions
      → Result (List File)
      → State
      → Failure × State
  run_upload rows_of transfer o (err e) a =
      unless (check_upload o.table o.offset o.batch_size) (some e, a) a
  run_upload rows_of transfer o (ok files) a =
      let reads = window files (pos_part o.offset) o.limit in
      let run = transfer (transfer_rows rows_of reads) in
      let uploaded =
        upload s user_set o.table (λ b. ((run b).0.0, (run b).1)) (total_limit reads) o.drop_on_fail
          a in
      unless (check_upload o.table o.offset o.batch_size)
        (if o.dry_run then (none, a) else uploaded) a
