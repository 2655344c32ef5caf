-- ===== src/Cmd/Upload.antt =====
-- The upload commands: cmd/fie-importer/upload_fies.go, upload_pds.go and upload_agents.go.
-- Reading the rows and sending them is the argument `transfer` (module Transfer); the display is not
-- modelled.
pub mod Outcomes
use fie_importer.Prelude.{
  ℕ, Bool, not, ◌&&◌, Option, none, some, List, ◌==◌, if◌then◌else◌, length, ℤ, pos, ltb_ℤ,
}
use fie_importer.Prelude.Bytes.{Bytes}
use fie_importer.Clickhouse.Names.{validate_table_name}
use fie_importer.Clickhouse.Server.{Server}
use fie_importer.Cmd.Error.{
  Error, Failure, Result, ok, err, invalid_table_name, negative_offset, bad_batch_size,
  transfer_failed, no_pds, cannot_summarize, cannot_insert, cannot_count, wrong_row_count,
}
use fie_importer.Cmd.Table.{create_table, new_table, open_table, guarded}

-- The checks of `runUpload` before anything is read.
unfoldable pub check_upload : Bytes → ℤ → ℤ → Failure
check_upload name offset batch_size =
    if not (validate_table_name name)
    then some invalid_table_name
    else if ltb_ℤ offset (pos 0)
    then some negative_offset
    else if ltb_ℤ batch_size (pos 1)
    then some bad_batch_size
    else none

-- The server's count, compared with the number of rows that were sent.
unfoldable pub check_count : Error → Option ℕ → ℕ → Failure
check_count failure none sent = some failure
check_count failure (some n) sent = if n == sent then none else some (wrong_row_count n sent)

module _ {Row : Type 0} (s : Server Row) (user_set : Bool) (name : Bytes) where
  open s use {State, count, send}

  -- `upload` behind `newTable`: transfer the rows, then compare the server's count with the total.
  unfoldable pub fill_fies : (State → Bool × State) → ℕ → State → Failure × State
  fill_fies transfer total a =
      let (sent, b) = transfer a in
      let (rows, c) = count name b in
      if not sent then (some transfer_failed, b) else (check_count cannot_summarize rows total, c)

  unfoldable pub upload : (State → Bool × State) → ℕ → Bool → State → Failure × State
  unfolding fill_fies
  upload transfer total drop_on_fail a =
      guarded s name (λ created. drop_on_fail) (fill_fies transfer total)
        (new_table s user_set (create_table s) name a)

  -- `uploadPDs` behind `newTable`: here the transfer returns the number of rows that it sent.
  unfoldable pub fill_pds : (State → (Bool × ℕ) × State) → State → Failure × State
  fill_pds transfer a =
      let ((done, sent), b) = transfer a in
      let (rows, c) = count name b in
      if not done
      then (some transfer_failed, b)
      else if sent == 0
      then (some no_pds, b)
      else (check_count cannot_summarize rows sent, c)

  unfoldable pub upload_pds : (State → (Bool × ℕ) × State) → Bool → State → Failure × State
  unfolding fill_pds
  upload_pds transfer drop_on_fail a =
      guarded s name (λ created. drop_on_fail) (fill_pds transfer)
        (new_table s user_set (create_table s) name a)

  -- `runUploadAgents` behind `openTable`: one batch, then the rows of this snapshot are counted;
  -- `count_snapshot` is that query.
  unfoldable pub fill_agents : (State → Option ℕ × State) → List Row → State → Failure × State
  fill_agents count_snapshot snapshot a =
      let (sent, b) = send name snapshot a in
      let (rows, c) = count_snapshot b in
      if not sent
      then (some cannot_insert, b)
      else (check_count cannot_count rows (length snapshot), c)

  -- The table is dropped only if this run created it.
  unfoldable pub upload_agents :
      (State → Option ℕ × State) → List Row → Bool → Bool → State → Failure × State
  unfolding fill_agents
  upload_agents count_snapshot snapshot append_rows drop_on_fail a =
      guarded s name (λ created. created && drop_on_fail) (fill_agents count_snapshot snapshot)
        (open_table s user_set (create_table s) append_rows name a)
