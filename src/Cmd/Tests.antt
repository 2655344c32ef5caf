-- ===== src/Cmd/Tests.antt =====
-- The commands run on a server in memory, and the theorems at such runs.
use fie_importer.Prelude.{
  Option, ℕ, ◌<◌, ◌≡◌, refl, ◌⊎◌, inl, inr, Bool, true, false, ◌&&◌, none, some, List, [], ◌∷◌,
  ◌++◌, arith, if◌then◌else◌, Bool-cases, length, pos, negsuc,
}
use fie_importer.Prelude.Bytes.{Bytes, codes}
use fie_importer.Prelude.Time.{Time, seconds}
use fie_importer.Pds.Reader.{trim_space, trim_left, trim_right}
use fie_importer.Text.Decimal.{parse_uint, scan, is_digit}
use fie_importer.Prelude.Double.{number}
use fie_importer.Fies.Filter.{Filter, validate}
use fie_importer.Cmd.UploadFies.Options.{
  FilterOptions, filter, id_texts, parse_ids, check_ids, check_percent, parse_time_flag, validated,
}
use fie_importer.Cmd.UploadFies.Options.Checked.{IsFilter, filter-IsFilter}
use fie_importer.Fies.File.{File}
use fie_importer.Fies.Row.{Row, Raw2a, convert2a}
use fie_importer.Clickhouse.Names.{validate_table_name, starts_name, continues_name, quote}
use fie_importer.Clickhouse.Names.Quoted.{read_identifier, read_identifier-quote}
use fie_importer.Clickhouse.Server.{Server, IsServer}
use fie_importer.Clickhouse.Instance.{Tables, memory, memory-IsServer}
use fie_importer.Cmd.Error.{ok}
use fie_importer.Cmd.Table.{
  create_table, drop_table, open_existing, open_table, new_table, drop_on_failure, guarded,
}
use fie_importer.Cmd.Table.Guarded.{Outcome}
use fie_importer.Cmd.Upload.{check_count, upload, fill_pds, upload_pds, upload_agents}
use fie_importer.Cmd.Upload.Outcomes.{upload-Outcome, upload_agents-Outcome}
use fie_importer.Cmd.Transfer.{
  Pipe, pipe, start, reading, returned, waiting, inserting, finished, broken, on_return, read,
  flush, finish, receive, insert, insert_fails, drained, Reachable, here, there, IsOver, went_well,
  insert_failed, result, sent,
}
use fie_importer.Cmd.Transfer.Order.{transfer_result}
use fie_importer.Cmd.Transfer.Ends.{work, Moves, step-work, transfer-Moves}
use fie_importer.Cmd.Transfer.Runs.{IsRun, run-IsTransfer_fies}
use fie_importer.Cmd.UploadFies.{UploadOptions}

abbrev pub t : Bytes
t = codes "fies_1"

read_identifier-quote_example :
    read_identifier (quote t ++ codes " (x UInt8)") ≡ some (t, codes " (x UInt8)")
read_identifier-quote_example =
    read_identifier-quote t (codes " (x UInt8)") (unfold validate_table_name in refl)

-- A transfer of two rows as one batch.
module _ {Row : Type 0} (s : Server Row) (laws : IsServer s) (x y : Row) where
  abbrev pub one_batch : s.State → (Bool × ℕ) × s.State
  one_batch a = let (done, b) = s.send t (x ∷ y ∷ []) a in ((done, if done then 2 else 0), b)

  both_sent :
      (a : s.State)
      → Reachable s t 2 false
          (start s (x ∷ y ∷ []) a)
          (pipe returned [] (inserting (x ∷ y ∷ [])) false a 0)
  unfolding start
  both_sent a =
      there
        (there
          (there (there (there here (read (omega arith))) (read (omega arith)))
            (flush (omega arith) (omega arith)))
          (finish refl))
        receive

  pub one_batch-IsRun : IsRun s laws t 2 false (x ∷ y ∷ []) one_batch
  unfolding result
  one_batch-IsRun a = elim (Bool-cases (s.send t (x ∷ y ∷ []) a).0) [
    | inl good ↦ (
      pipe returned [] finished false (s.send t (x ∷ y ∷ []) a).1 2,
      there (there (both_sent a) (insert good)) (drained on_return),
      went_well,
      rw good refl,
    )
    | inr bad ↦ (
      pipe returned [] broken true (s.send t (x ∷ y ∷ []) a).1 0,
      there (both_sent a) (insert_fails bad),
      insert_failed on_return,
      rw bad refl,
    )
  ]

-- No tables
abbrev pub nothing : {Row : Type 0} → Tables Row
nothing name = none

abbrev numbers : Server ℕ
numbers = memory

abbrev numbers_laws : IsServer numbers
numbers_laws = memory-IsServer

abbrev five_six : List ℕ
five_six = 5 ∷ 6 ∷ []

transfer_result_example :
    (numbers.table (one_batch numbers numbers_laws 5 6 (numbers.create t nothing).1).1 t
      ≡ some five_six)
    × (sent numbers (pipe returned [] finished false nothing 2) ≡ length five_six)
transfer_result_example =
    transfer_result numbers numbers_laws t (5 ∷ 6 ∷ []) (numbers.create t nothing).1 [] 2 false
      (pipe returned [] finished false
        (one_batch numbers numbers_laws 5 6 (numbers.create t nothing).1).1 2)
      refl
      (there (there (both_sent numbers numbers_laws 5 6 (numbers.create t nothing).1) (insert refl))
        (drained on_return))
      (unfold result in refl)

abbrev begun : Pipe numbers
begun = pipe (reading (5 ∷ 6 ∷ []) []) [] waiting false nothing 0

abbrev one_read : Pipe numbers
one_read = pipe (reading (6 ∷ []) (5 ∷ [])) [] waiting false nothing 0

step-work_example : work numbers t 2 false one_read < work numbers t 2 false begun
step-work_example = step-work numbers t 2 false (omega arith) begun one_read (read (omega arith))

transfer-Moves_example : IsOver numbers one_read ⊎ Moves numbers t 2 false (omega arith) one_read
transfer-Moves_example =
    transfer-Moves numbers t 2 false (omega arith) (5 ∷ 6 ∷ []) nothing one_read
      (unfold start in there here (read {batch = []} (omega arith)))

upload-Outcome_example :
    Outcome numbers numbers_laws t false
      (λ created. true)
      nothing
      (upload numbers true t
        (λ a.
          ((one_batch numbers numbers_laws 5 6 a).0.0, (one_batch numbers numbers_laws 5 6 a).1))
        3
        true
        nothing)
upload-Outcome_example =
    upload-Outcome numbers numbers_laws true t
      (run-IsTransfer_fies numbers numbers_laws t 2 false (5 ∷ 6 ∷ [])
        (one_batch numbers numbers_laws 5 6) (one_batch-IsRun numbers numbers_laws 5 6))
      3 true nothing

abbrev both : Tables ℕ → (Bool × ℕ) × Tables ℕ
both = one_batch numbers numbers_laws 5 6

pds_uploaded : (upload_pds numbers true t both true nothing).0 ≡ none
unfolding upload_pds guarded new_table open_table open_existing create_table validate_table_name
    starts_name continues_name drop_on_failure drop_table fill_pds check_count
pds_uploaded = refl

upload_agents-Outcome_example :
    Outcome numbers numbers_laws t true
      (λ created. created && true)
      nothing
      (upload_agents numbers true t (numbers.count t) (5 ∷ []) true true nothing)
upload_agents-Outcome_example =
    upload_agents-Outcome numbers numbers_laws true t (numbers.count t) (numbers_laws.count_same t)
      (5 ∷ []) true true nothing

-- A file with two rows, uploaded whole.
abbrev pub capture : File
capture = record {
  path = "fies2a.parquet";
  interval_start = seconds 1000;
  interval = seconds 900;
  rows = 2;
}

abbrev pub raw : ℕ → Raw2a
raw id = record {
  pdid = id;
  capture_second = 30;
  fie_transit_s = none;
  near_reply_addr = 10 ∷ 0 ∷ 0 ∷ 1 ∷ [];
  far_reply_addr = [];
  near_reply_age_s = some 2;
  far_reply_age_s = none;
}

abbrev pub options : UploadOptions
options = record {
  table = t;
  offset = pos 0;
  limit = negsuc 0;
  batch_size = pos 2;
  drop_on_fail = true;
  dry_run = false;
}

abbrev pub fies : Server Row
fies = memory

abbrev pub two_rows : List Row → Tables Row → (Bool × ℕ) × Tables Row
two_rows rows =
    one_batch fies memory-IsServer (convert2a (raw 7) (seconds 1000))
      (convert2a (raw 8) (seconds 1000))

-- Two PD IDs on the command line, and no file.
abbrev pub filter_options : FilterOptions
filter_options = record {
  pdids = codes "7" ∷ codes " 8" ∷ [];
  pdids_file = [];
  percent = number false 0 0;
  seed = 1;
  start = [];
  end = [];
}

abbrev pub no_files : Bytes → Option (List Bytes × Bool)
no_files path = none

abbrev no_times : Bytes → Option Time
no_times s = none

abbrev pub two_ids : Filter
two_ids = record {
  pdids = 7 ∷ 8 ∷ [];
  percent = number false 0 0;
  seed = 1;
  start = pos 0;
  end = pos 0;
}

filter_made : filter no_files no_times filter_options ≡ ok two_ids
unfolding filter id_texts parse_ids parse_uint scan is_digit trim_space trim_left trim_right
    check_ids check_percent parse_time_flag validated validate
filter_made = refl

filter-IsFilter_example : IsFilter filter_options two_ids
filter-IsFilter_example = filter-IsFilter no_files no_times filter_options two_ids filter_made
