-- ===== src/Cmd/Fdhs.antt =====
-- cmd/fie-importer/compute_fdhs.go, with `MissingColumns` of internal/clickhouse/fdhs.go. The display,
-- and the goroutine that feeds it, are not modelled.
pub mod Source
pub mod Outcomes
pub mod Joined
use fie_importer.Prelude.{
  ℕ, ◌+◌, ◌-◌, ◌%◌, ◌^◌, Bool, true, false, not, ◌&&◌, ◌||◌, Option, none, some, List, [], ◌∷◌,
  ◌==◌, if◌then◌else◌, is_empty,
}
use fie_importer.Prelude.Bytes.{Bytes, codes}
use fie_importer.Net.{bytes_eq}
use fie_importer.Clickhouse.Names.{validate_table_name}
use fie_importer.Clickhouse.Fdhs.{FdhSource}
use fie_importer.Clickhouse.Server.{Server}
use fie_importer.Cmd.Error.{
  Failure, and_then, invalid_table_name, same_tables, cannot_look_up, no_input, cannot_list_columns,
  lacks_columns, cannot_count, nothing_to_join, transfer_failed, cannot_summarize, wrong_row_count,
}
use fie_importer.Cmd.Table.{create_table, new_table, guarded}
use fie_importer.Cmd.Upload.{check_count}
use fie_importer.Cmd.Fdhs.Source.{with_source}

-- The further statements of compute-fdhs.
pub record FdhClient {Row : Type 0} (s : Server Row) : Type 0 where
  -- the columns of a table
  pub columns : Bytes → s.State → Option (List Bytes) × s.State
  -- `CountFDHSource` of the FIE and the PD table
  pub count_source : Bytes → Bytes → s.State → Option FdhSource × s.State
  -- `newQueryID`: is there an ID?
  pub has_query_id : s.State → Bool
  -- `InsertFDHs` into a table, from the FIE and the PD table; `KillQuery`
  pub insert_fdhs : Bytes → Bytes → Bytes → s.State → Bool × s.State
  pub kill_query : s.State → s.State

-- `have[name]`
abbrev pub is_in : Bytes → List Bytes → Bool
is_in name [] = false
is_in name (x ∷ have) = bytes_eq name x || is_in name have

-- `MissingColumns`, with the columns that the table has.
unfoldable pub missing_columns : List Bytes → List Bytes → List Bytes
missing_columns have [] = []
missing_columns have (name ∷ want) =
    let rest = missing_columns have want in if is_in name have then rest else name ∷ rest

abbrev pub fdh_fie_columns : List Bytes
fdh_fie_columns =
    codes "pd_id" ∷ codes "capture_time" ∷ codes "near_reply_addr" ∷ codes "far_reply_addr" ∷ []

abbrev pub fdh_pd_columns : List Bytes
fdh_pd_columns =
    codes "pd_id"
    ∷ codes "agent_id"
    ∷ codes "ip_version"
    ∷ codes "destination_addr"
    ∷ codes "near_ttl"
    ∷ []

-- `checkFDHTables`
unfoldable pub check_fdh_tables : Bytes → Bytes → Bytes → Failure
check_fdh_tables name fies_table pds_table =
    if not (
      validate_table_name name && (validate_table_name fies_table && validate_table_name pds_table))
    then some invalid_table_name
    else if bytes_eq name fies_table || bytes_eq name pds_table
    then some same_tables
    else none

-- `len(missing) > 0`
unfoldable pub check_missing : Option (List Bytes) → List Bytes → Failure
unfolding missing_columns
check_missing none want = some cannot_list_columns
check_missing (some have) want =
    if is_empty (missing_columns have want)
    then none
    else some (lacks_columns (missing_columns have want))

-- `s.NearFIEs - s.MissingPD` on uint64
unfoldable pub expected_rows : FdhSource → ℕ
expected_rows src = (src.near_fies + 2 ^ 64 - src.missing_pd) % 2 ^ 64

module _ {Row : Type 0} (s : Server Row) (ch : FdhClient s) where
  -- `checkFDHInput`
  unfoldable pub check_fdh_input : Bytes → List Bytes → s.State → Failure × s.State
  unfolding check_missing
  check_fdh_input table want a =
      let (there, b) = s.exists table a in
      let (have, c) = ch.columns table b in
      elim there [
        | none ↦ (some cannot_look_up, b)
        | some present ↦ if present then (check_missing have want, c) else (some no_input, b)
      ]

  -- The state of a run is the server's and the variable `src`.
  abbrev pub run_state : Server Row
  run_state = with_source s

  unfoldable pub lift : (s.State → Failure × s.State) → run_state.State → Failure × run_state.State
  lift f (a, src) = let (failure, b) = f a in (failure, (b, src))

  -- The count, the test that there is something to join, and `*src = s`.
  unfoldable pub count_input : Bytes → Bytes → run_state.State → Failure × run_state.State
  count_input fies_table pds_table (a, src) =
      let (counted, b) = ch.count_source fies_table pds_table a in
      elim counted [
        | none ↦ (some cannot_count, (b, src))
        | some n ↦
            if n.near_fies == n.missing_pd then (some nothing_to_join, (b, src)) else (none, (b, n))
      ]

  -- `prepareFDHs`: the create function for `newTable`.
  unfoldable pub prepare_fdhs : Bytes → Bytes → Bytes → run_state.State → Failure × run_state.State
  unfolding check_fdh_input lift count_input and_then
  prepare_fdhs fies_table pds_table name a =
      and_then (lift (check_fdh_input fies_table fdh_fie_columns) a) (λ b.
        and_then (lift (check_fdh_input pds_table fdh_pd_columns) b)
          (λ c. and_then (count_input fies_table pds_table c) (λ d. create_table run_state name d)))

  -- `insertFDHs`
  unfoldable pub insert_fdhs_or_kill : Bytes → Bytes → Bytes → s.State → Bool × s.State
  insert_fdhs_or_kill name fies_table pds_table a =
      let (done, b) = ch.insert_fdhs name fies_table pds_table a in
      if not (ch.has_query_id a)
      then (false, a)
      else if done
      then (true, b)
      else (false, ch.kill_query b)

  -- `computeFDHs` behind `newTable`
  unfoldable pub fill_fdhs : Bytes → Bytes → Bytes → run_state.State → Failure × run_state.State
  unfolding insert_fdhs_or_kill
  fill_fdhs name fies_table pds_table (a, src) =
      let (done, b) = insert_fdhs_or_kill name fies_table pds_table a in
      let (rows, c) = s.count name b in
      if not done
      then (some transfer_failed, (b, src))
      else (check_count cannot_summarize rows (expected_rows src), (c, src))

  unfoldable pub compute_fdhs :
      Bool → Bytes → Bytes → Bytes → Bool → run_state.State → Failure × run_state.State
  unfolding fill_fdhs prepare_fdhs
  compute_fdhs user_set name fies_table pds_table drop_on_fail a =
      guarded run_state name (λ created. drop_on_fail) (fill_fdhs name fies_table pds_table)
        (new_table run_state user_set (prepare_fdhs fies_table pds_table) name a)

  -- `runComputeFDHs`
  unfoldable pub run_compute_fdhs :
      Bool → Bytes → Bytes → Bytes → Bool → Bool → run_state.State → Failure × run_state.State
  unfolding check_fdh_tables
  run_compute_fdhs user_set name fies_table pds_table drop_on_fail dry_run a =
      and_then (check_fdh_tables name fies_table pds_table, a)
        (λ b.
          if dry_run
          then (none, b)
          else compute_fdhs user_set name fies_table pds_table drop_on_fail b)
