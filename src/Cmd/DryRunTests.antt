-- ===== src/Cmd/DryRunTests.antt =====
-- A dry run of upload-fies, and the upload that it stands for.
use fie_importer.Prelude.{◌≡◌, refl, true, false, none, some, List, [], ◌∷◌, length}
use fie_importer.Prelude.Time.{seconds}
use fie_importer.Fies.File.{File}
use fie_importer.Fies.Row.{Row, Raw2a, convert2a}
use fie_importer.Fies.Window.{window}
use fie_importer.Fies.Window.Totals.{sum_rows, total_limit}
use fie_importer.Fies.Window.Rows.{all_rows}
use fie_importer.Clickhouse.Names.{validate_table_name, starts_name, continues_name}
use fie_importer.Clickhouse.Instance.{memory-IsServer}
use fie_importer.Cmd.Error.{ok}
use fie_importer.Cmd.Table.{
  create_table, drop_table, open_existing, open_table, new_table, drop_on_failure, guarded,
}
use fie_importer.Cmd.Transfer.Runs.{IsRun}
use fie_importer.Cmd.Upload.{check_count, check_upload, fill_fies, upload}
use fie_importer.Cmd.UploadFies.{transfer_rows, run_upload, unless}
use fie_importer.Cmd.UploadFies.DryRun.{Figures, distinct_pds, figures, dry_run, dry_run-Total}
use fie_importer.Cmd.Tests.{t, one_batch-IsRun, nothing, capture, raw, options, fies, two_rows}

abbrev raws : File → List Raw2a
raws f = raw 7 ∷ raw 8 ∷ []

abbrev printed : Figures raws
printed = record { total = 2; reads = 1; matching = 2; files = 1; pds = 2 }

dry_run_prints : dry_run raws true (capture ∷ []) options ≡ some printed
unfolding dry_run distinct_pds figures window sum_rows total_limit
dry_run_prints = refl

transfer_runs :
    IsRun fies memory-IsServer t 2 false
      (transfer_rows raws (window (capture ∷ []) 0 options.limit))
      (two_rows (transfer_rows raws (window (capture ∷ []) 0 options.limit)))
unfolding transfer_rows window
transfer_runs =
    one_batch-IsRun fies memory-IsServer (convert2a (raw 7) (seconds 1000))
      (convert2a (raw 8) (seconds 1000))

uploaded : (run_upload fies true raws two_rows options (ok (capture ∷ [])) nothing).0 ≡ none
unfolding run_upload unless check_upload upload guarded new_table open_table open_existing
    create_table validate_table_name starts_name continues_name drop_on_failure drop_table fill_fies
    check_count transfer_rows window total_limit
uploaded = refl

dry_run-Total_example :
    ((rows : List Row) × (fies.table
          (run_upload fies true raws two_rows options (ok (capture ∷ [])) nothing).1
          t
        ≡ some rows)
      × (length rows ≡ 2))
    × (2 ≡ length (all_rows raws (capture ∷ [])))
dry_run-Total_example =
    dry_run-Total fies memory-IsServer true raws false options true (capture ∷ []) printed two_rows
      nothing dry_run_prints (refl, tt) transfer_runs refl uploaded
