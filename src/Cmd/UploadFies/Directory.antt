-- ===== src/Cmd/UploadFies/Directory.antt =====
-- `runUpload` of cmd/fie-importer/upload_fies.go from its options on: the filter, `Open`, `Plan`, `Window` and
-- the upload, over the files of a directory. `count` is the count of a file's rows behind the filter.
use fie_importer.Prelude.Bytes.{Bytes}
use fie_importer.Prelude.{
  keep_if, ℕ, ◌≡◌, refl, sym, ap, ◌∙◌, inl, inr, Bool, false, Option, none, some, List, [], map,
  Option-cases, length, drop, All, pos_part,
}
use Prim.Native.String.{String}
use fie_importer.Prelude.Time.{Time}
use fie_importer.Prelude.Sort.{sort, All-sort}
use fie_importer.Fies.File.{File}
use fie_importer.Fies.Row.{Row, Raw2a, convert2a}
use fie_importer.Fies.Filter.{Filter, overlaps, selects, start_conds, end_conds}
use fie_importer.Fies.Filter.Select.{IsInFile}
use fie_importer.Fies.Filter.Share.{IsSample, filter-IsSample}
use fie_importer.Fies.Window.{window}
use fie_importer.Fies.Window.Rows.{all_rows, take_limit}
use fie_importer.Fies.Source.{
  Metadata, Sourced, sourced, rejected, read_metadata, starts_before, open_source, rows_of, plan,
}
use fie_importer.Fies.Source.Planned.{plan-IsPlanned}
use fie_importer.Fies.Source.Opened.{Describes, open_source_lem}
use fie_importer.Fies.Source.Selected.{passing, all_rows-overlaps, all_rows-plan, Describes-All}
use fie_importer.Clickhouse.Server.{Server, IsServer}
use fie_importer.Cmd.Error.{
  Error, Failure, Result, ok, err, on_value, on_value-ok, cannot_open_source,
}
use fie_importer.Cmd.Upload.{check_upload}
use fie_importer.Cmd.Transfer.Runs.{IsRun}
use fie_importer.Cmd.UploadFies.{UploadOptions, transfer_rows, unless, run_upload}
use fie_importer.Cmd.UploadFies.Options.{FilterOptions, filter}
use fie_importer.Cmd.UploadFies.Whole.{run_upload_succeeds}

abbrev pub then_plan : (File → Option ℕ) → Sourced (List File) → Sourced (List File)
then_plan count (rejected e) = rejected e
then_plan count (sourced files) = plan count files

abbrev pub with_filter : Filter → Sourced (List File) → Result (Filter × List File)
with_filter flt (rejected e) = err cannot_open_source
with_filter flt (sourced files) = ok (flt, files)

module _ (scan_file : Bytes → Option (List Bytes × Bool)) (parse_time : Bytes → Option Time)
    (metadata : String → Option Metadata) (hash : ℕ → ℕ → ℕ) (data_of : String → List Raw2a)
    (count : Filter → File → Option ℕ) (paths : List String) where
  -- `o.filter()`, `fies.Open` and `src.Plan`
  unfoldable pub planned_files : FilterOptions → Result (Filter × List File)
  planned_files fo =
      on_value
        (λ flt. with_filter flt (then_plan (count flt) (open_source parse_time metadata flt paths)))
        (filter scan_file parse_time fo)

  module _ (s : Server Row) (user_set : Bool) (transfer : List Row → s.State → (Bool × ℕ) × s.State)
      (o : UploadOptions) where
    abbrev pub run_planned : Result (Filter × List File) → s.State → Failure × s.State
    run_planned (err e) a = run_upload s user_set (λ f. []) transfer o (err e) a
    run_planned (ok (flt, files)) a =
        run_upload s user_set (rows_of hash data_of flt) transfer o (ok files) a

    unfoldable pub upload_directory : FilterOptions → s.State → Failure × s.State
    upload_directory fo a = run_planned (planned_files fo) a

    -- The rows of a directory that a filter means, in the order of the files
    abbrev pub directory_rows : Filter → List File → List Row
    directory_rows flt all =
        all_rows (λ f. map (λ raw. convert2a raw f.interval_start) (passing hash data_of flt f))
          (sort starts_before all)

    -- What a successful upload leaves
    pub record IsUploaded (fo : FilterOptions) (a b : s.State) : Type 0 where
      pub used : Filter
      pub is_filter : filter scan_file parse_time fo ≡ ok used
      pub is_sample : IsSample used
      pub all : List File
      pub described : Describes parse_time metadata paths all
      pub was_absent : s.table a o.table ≡ none
      pub holds :
          s.table b o.table
          ≡ some (take_limit o.limit (drop (pos_part o.offset) (directory_rows used all)))

    with_filter_lem :
        (flt : Filter) (r : Sourced (List File)) (used : Filter) (files : List File)
        → with_filter flt r ≡ ok (used, files)
        → (flt ≡ used) × (r ≡ sourced files)
    with_filter_lem flt (rejected e) used files h = absurd (cc)
    with_filter_lem flt (sourced found) used files h =
        let both : ◌≡◌ {A = Filter × List File} (flt, found) (used, files) = cc in
        (ap (λ x. x.0) both, ap (λ x. sourced x.1) both)

    then_plan_lem :
        (count : File → Option ℕ) (opened : Sourced (List File)) (files : List File)
        → then_plan count opened ≡ sourced files
        → (found : List File) × (opened ≡ sourced found) × (plan count found ≡ sourced files)
    then_plan_lem count (rejected e) files h = absurd (cc)
    then_plan_lem count (sourced found) files h = (found, refl, h)

    selects_same :
        (flt : Filter) (f : File) (n : ℕ)
        → rows_of hash data_of flt (record f { rows = n }) ≡ rows_of hash data_of flt f
    unfolding selects start_conds end_conds
    selects_same flt f n = refl

    no_files : (e : Error) (a : s.State) → (run_planned (err e) a).0 ≡ none → ⊥
    unfolding run_upload unless
    no_files e a h = elim (Option-cases (check_upload o.table o.offset o.batch_size)) [
      | inl fine ↦ cc (rw (run_upload, unless, fine) at h)
      | inr (x, bad) ↦ cc (rw (run_upload, unless, bad) at h)
    ]

    module _ (laws : IsServer s) (fault : Bool) where
      -- The transfer is a run of the two goroutines on the rows of the plan.
      abbrev pub IsTransferOf : Result (Filter × List File) → Type 0
      IsTransferOf (err e) = Unit
      IsTransferOf (ok (flt, files)) =
          IsRun s laws o.table (pos_part o.batch_size) fault
            (transfer_rows (rows_of hash data_of flt) (window files (pos_part o.offset) o.limit))
            (transfer
              (transfer_rows (rows_of hash data_of flt) (window files (pos_part o.offset) o.limit)))

      module _
          (right : (flt : Filter) (f : File) (n : ℕ)
            → count flt f ≡ some n
            → n ≡ length (rows_of hash data_of flt f))
          (inside : (path : String) (f : File)
            → read_metadata parse_time path (metadata path) ≡ sourced f
            → All (IsInFile f) (data_of f.path))
          (wet : o.dry_run ≡ false) (fo : FilterOptions) where
        planned_rows :
            (flt : Filter) (all files planned : List File)
            → Describes parse_time metadata paths all
            → files ≡ keep_if (overlaps flt) (sort starts_before all)
            → plan (count flt) files ≡ sourced planned
            → all_rows
                (λ f. map (λ raw. convert2a raw f.interval_start) (rows_of hash data_of flt f))
                planned
              ≡ directory_rows flt all
        planned_rows flt all files planned described kept e =
            all_rows-plan _
              (λ f n. ap (map (λ raw. convert2a raw f.interval_start)) (selects_same flt f n))
              (count flt) files planned e
            ∙ ap
                (all_rows
                  (λ f. map (λ raw. convert2a raw f.interval_start) (rows_of hash data_of flt f)))
                kept
            ∙ all_rows-overlaps hash data_of flt (λ f raw. convert2a raw f.interval_start)
                (sort starts_before all)
                (All-sort starts_before (λ f. All (IsInFile f) (data_of f.path)) all
                  (Describes-All parse_time metadata (λ f. All (IsInFile f) (data_of f.path)) inside
                    paths all described))

        planned-IsUploaded :
            (flt : Filter) (planned : List File) (a : s.State)
            → filter scan_file parse_time fo ≡ ok flt
            → then_plan (count flt) (open_source parse_time metadata flt paths) ≡ sourced planned
            → IsTransferOf (ok (flt, planned))
            → (run_planned (ok (flt, planned)) a).0 ≡ none
            → IsUploaded fo a (run_planned (ok (flt, planned)) a).1
        planned-IsUploaded flt planned a used opened runs worked =
            let (files, open_ok, plan_ok) = then_plan_lem (count flt) _ planned opened in
            let (valid, all, described, kept) =
              open_source_lem parse_time metadata flt paths files open_ok in
            let (absent, holds) =
              run_upload_succeeds s laws user_set (rows_of hash data_of flt) fault o planned
                transfer a
                (plan-IsPlanned (rows_of hash data_of flt) (selects_same flt) (count flt)
                  (right flt) files planned plan_ok)
                runs wet worked in
            record {
              used = flt;
              is_filter = used;
              is_sample = filter-IsSample flt;
              all = all;
              described = described;
              was_absent = absent;
              holds =
                  holds
                  ∙ ap (λ l. some (take_limit o.limit (drop (pos_part o.offset) l)))
                      (planned_rows flt all files planned described kept plan_ok);
            }

        cases-IsUploaded :
            (r : Result (Filter × List File)) (a : s.State)
            → planned_files fo ≡ r
            → IsTransferOf r
            → (run_planned r a).0 ≡ none
            → IsUploaded fo a (run_planned r a).1
        unfolding planned_files
        cases-IsUploaded (err e) a made runs worked = absurd (no_files e a worked)
        cases-IsUploaded (ok (flt, planned)) a made runs worked =
            let (used, is_filter, rest) =
              on_value-ok _ (filter scan_file parse_time fo) (flt, planned) made in
            let (same, opened) = with_filter_lem used _ flt planned rest in
            planned-IsUploaded flt planned a (is_filter ∙ ap (λ x. ok x) same)
              (ap (λ x. then_plan (count x) (open_source parse_time metadata x paths)) (sym same)
                ∙ opened)
              runs worked

        -- If `upload-fies` over a directory returns no error and is not a dry run, then the table was not there
        -- before, and it holds the converted rows of all files of the directory that pass the filter of the
        -- options, file by file in the order of their starts, with `offset` of them dropped and at most `limit`
        -- kept: no row is lost by the files that were left out, the WHERE clauses, the counts, the window or
        -- the two goroutines. A sample of PDs takes the buckets that its percentage gives, but for less than one
        -- bucket and 2⁻³⁰ of one. Every row is to lie in its file: its capture second is a uint16 below the
        -- length of the file. The counts of DuckDB are to be right, and the transfer a run of the goroutines.
        pub upload_directory-IsUploaded :
            (a : s.State)
            → IsTransferOf (planned_files fo)
            → (upload_directory fo a).0 ≡ none
            → IsUploaded fo a (upload_directory fo a).1
        unfolding upload_directory
        upload_directory-IsUploaded a runs worked =
            cases-IsUploaded (planned_files fo) a refl runs worked
