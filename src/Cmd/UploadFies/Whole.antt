-- ===== src/Cmd/UploadFies/Whole.antt =====
-- What a whole upload leaves in the table.
use fie_importer.Prelude.{
  ℕ, ◌≡◌, refl, ap, ◌∙◌, Bool, false, none, some, List, [], ◌∷◌, map, drop, All, pos_part, map-take,
  map-drop, length-map,
}
use fie_importer.Fies.File.{File}
use fie_importer.Fies.Window.{Read, window}
use fie_importer.Fies.Window.Totals.{total_limit}
use fie_importer.Fies.Window.Rows.{take_limit, all_rows, read_rows, IsPlanned, read_rows-window}
use fie_importer.Fies.Row.{Row, Raw2a, convert2a}
use fie_importer.Clickhouse.Server.{Server, IsServer}
use fie_importer.Cmd.Error.{Failure, ok}
use fie_importer.Cmd.Upload.{check_upload}
use fie_importer.Cmd.Upload.Outcomes.{upload_succeeds}
use fie_importer.Cmd.Transfer.Runs.{IsRun, run-IsTransfer_fies}
use fie_importer.Cmd.UploadFies.{UploadOptions, transfer_rows, unless, run_upload}

-- The table rows of a file
abbrev pub converted : (File → List Raw2a) → File → List Row
converted rows_of f = map (λ raw. convert2a raw f.interval_start) (rows_of f)

transfer_rows-read_rows :
    (rows_of : File → List Raw2a) (reads : List Read)
    → transfer_rows rows_of reads ≡ read_rows (converted rows_of) reads
unfolding transfer_rows
transfer_rows-read_rows rows_of [] = refl
transfer_rows-read_rows rows_of (r ∷ reads) =
    simp (map-take, map-drop, transfer_rows-read_rows rows_of reads)

converted-IsPlanned :
    (rows_of : File → List Raw2a) (files : List File)
    → All (IsPlanned rows_of) files
    → All (IsPlanned (converted rows_of)) files
converted-IsPlanned rows_of [] h = h
converted-IsPlanned rows_of (f ∷ files) (hf, h) =
    (length-map _ (rows_of f) ∙ hf, converted-IsPlanned rows_of files h)

module _ (s : Server Row) (laws : IsServer s) (user_set : Bool) (rows_of : File → List Raw2a)
    (fault : Bool) (o : UploadOptions) where
  open s use {State, table}

  unless_succeeds :
      (failure : Failure) (r : Failure × State) (a : State)
      → (unless s user_set failure r a).0 ≡ none
      → (r.0 ≡ none) × (unless s user_set failure r a ≡ r)
  unfolding unless
  unless_succeeds none r a h = (h, refl)
  unless_succeeds (some e) r a h = cc

  -- If `upload-fies` returns no error and is not a dry run, then the table was not there before, and it
  -- holds exactly the converted rows of all files behind the filters, in the order of the files, with
  -- `offset` of them dropped and at most `limit` kept; however the two goroutines were scheduled.
  pub run_upload_succeeds :
      (files : List File) (transfer : List Row → State → (Bool × ℕ) × State) (a : State)
      → All (IsPlanned rows_of) files
      → IsRun s laws o.table
          (pos_part o.batch_size)
          fault
          (transfer_rows rows_of (window files (pos_part o.offset) o.limit))
          (transfer (transfer_rows rows_of (window files (pos_part o.offset) o.limit)))
      → o.dry_run ≡ false
      → (run_upload s user_set rows_of transfer o (ok files) a).0 ≡ none
      → (table a o.table ≡ none)
        × (table (run_upload s user_set rows_of transfer o (ok files) a).1 o.table
            ≡ some (
                take_limit o.limit (drop (pos_part o.offset) (all_rows (converted rows_of) files))))
  unfolding run_upload
  run_upload_succeeds files transfer a planned runs wet h =
      let reads = window files (pos_part o.offset) o.limit in
      let rows = transfer_rows rows_of reads in
      let moves =
        run-IsTransfer_fies s laws o.table (pos_part o.batch_size) fault rows (transfer rows)
          runs in
      let exact =
        transfer_rows-read_rows rows_of reads
        ∙ read_rows-window (converted rows_of) files (pos_part o.offset) o.limit
            (converted-IsPlanned rows_of files planned) in
      let (worked, same) = unless_succeeds (check_upload o.table o.offset o.batch_size) _ a h in
      let (absent, counted, holds) =
        upload_succeeds s laws user_set o.table moves (total_limit reads) o.drop_on_fail a
          (rw wet at worked) in
      (absent, ap (λ r. table r.1 o.table) same ∙ rw wet (holds ∙ ap (λ l. some l) exact))
