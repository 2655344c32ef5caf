-- ===== src/Cmd/DirectoryTests.antt =====
-- A directory of one capture file, uploaded from the options on.
use fie_importer.Prelude.Bytes.{Bytes, codes}
use fie_importer.Prelude.{
  ℕ, ◌+◌, ◌≡◌, refl, true, false, Option, none, some, List, [], ◌∷◌, arith, length, All,
}
use Prim.Native.String.{String}
use fie_importer.Prelude.Time.{Time, seconds}
use fie_importer.Prelude.Sort.{sort, insert}
use fie_importer.Pds.Reader.{trim_space, trim_left, trim_right}
use fie_importer.Text.Decimal.{parse_uint, parse_positive, scan, is_digit}
use fie_importer.Fies.File.{File, end}
use fie_importer.Fies.Row.{Raw2a, convert2a}
use fie_importer.Fies.Filter.{
  Filter, validate, overlaps, selects, where_conds, pd_conds, sample_conds, start_conds, end_conds,
}
use fie_importer.Fies.Filter.Select.{IsInFile}
use fie_importer.Fies.Window.{window}
use fie_importer.Fies.Window.Totals.{total_limit}
use fie_importer.Fies.Source.{
  Metadata, read_metadata, meta, file_of, seconds_duration, read_files, open_source, rows_of, plan,
  sourced,
}
use fie_importer.Clickhouse.Names.{validate_table_name, starts_name, continues_name}
use fie_importer.Clickhouse.Instance.{memory-IsServer}
use fie_importer.Cmd.Error.{ok}
use fie_importer.Cmd.Table.{
  create_table, drop_table, open_existing, open_table, new_table, drop_on_failure, guarded,
}
use fie_importer.Cmd.Upload.{check_count, check_upload, fill_fies, upload}
use fie_importer.Cmd.UploadFies.{transfer_rows, run_upload, unless}
use fie_importer.Cmd.UploadFies.Options.{
  filter, id_texts, parse_ids, check_ids, check_percent, parse_time_flag, validated,
}
use fie_importer.Cmd.UploadFies.Directory.{
  planned_files, upload_directory, IsUploaded, IsTransferOf, upload_directory-IsUploaded,
}
use fie_importer.Cmd.Tests.{
  nothing, raw, options, fies, two_rows, capture, filter_options, no_files, two_ids,
  one_batch-IsRun,
}

abbrev at_1000 : Bytes → Option Time
at_1000 s = some (seconds 1000)

abbrev metadata : String → Option Metadata
metadata path = some (
    (codes "retina.fies.format", codes "2a")
    ∷ (codes "retina.fies.interval_start", codes "1000")
    ∷ (codes "retina.fies.interval_seconds", codes "900")
    ∷ [])

abbrev hash : ℕ → ℕ → ℕ
hash id seed = id + seed

-- The row of PD 9 does not pass.
abbrev captured : String → List Raw2a
captured path = raw 7 ∷ raw 9 ∷ raw 8 ∷ []

abbrev count : Filter → File → Option ℕ
count flt f = some (length (rows_of hash captured flt f))

abbrev paths : List String
paths = "fies2a.parquet" ∷ []

planned_made :
    planned_files no_files at_1000 metadata hash captured count paths filter_options
    ≡ ok (two_ids, capture ∷ [])
unfolding planned_files filter id_texts parse_ids parse_uint scan is_digit trim_space trim_left
    trim_right check_ids check_percent parse_time_flag validated validate read_metadata meta file_of
    seconds_duration parse_positive read_files open_source overlaps end sort insert plan selects
    where_conds pd_conds sample_conds start_conds end_conds
planned_made = refl

abbrev described : String → File
described path = record {
  path = path;
  interval_start = seconds 1000;
  interval = seconds 900;
  rows = 0;
}

raw_inside : (path : String) (id : ℕ) → IsInFile (described path) (raw id)
raw_inside path id = record { fits = omega arith; in_interval = omega arith }

planned_inside :
    (path : String) (f : File)
    → read_metadata at_1000 path (metadata path) ≡ sourced f
    → All (IsInFile f) (captured path)
unfolding read_metadata meta file_of seconds_duration parse_positive scan is_digit
planned_inside path f h =
    let same : described path ≡ f = cc in
    rw (← same) (raw_inside path 7, (raw_inside path 9, (raw_inside path 8, tt)))

directory_IsTransferOf :
    IsTransferOf no_files at_1000 metadata hash captured count paths fies true two_rows options
      memory-IsServer false
      (planned_files no_files at_1000 metadata hash captured count paths filter_options)
unfolding transfer_rows window selects where_conds pd_conds sample_conds start_conds end_conds
directory_IsTransferOf = rw planned_made (
    one_batch-IsRun fies memory-IsServer (convert2a (raw 7) (seconds 1000))
      (convert2a (raw 8) (seconds 1000)))

directory_uploaded :
    (upload_directory no_files at_1000 metadata hash captured count paths fies true two_rows options
      filter_options nothing).0
    ≡ none
unfolding upload_directory run_upload unless check_upload upload guarded new_table open_table
    open_existing create_table validate_table_name starts_name continues_name drop_on_failure
    drop_table fill_fies check_count transfer_rows window total_limit
directory_uploaded = rw planned_made refl

upload_directory-IsUploaded_example :
    IsUploaded no_files at_1000 metadata hash captured count paths fies true two_rows options
      filter_options nothing
      (upload_directory no_files at_1000 metadata hash captured count paths fies true two_rows
        options filter_options nothing).1
upload_directory-IsUploaded_example =
    upload_directory-IsUploaded no_files at_1000 metadata hash captured count paths fies true
      two_rows options memory-IsServer false (λ flt f n h. cc) planned_inside refl filter_options
      nothing directory_IsTransferOf directory_uploaded
