-- ===== src/Cmd/UploadFies/DryRun.antt =====
-- `dryRun` of cmd/fie-importer/upload_fies.go, and `DistinctPDs` of internal/fies/source.go. The query counts over the rows
-- behind the WHERE clauses, `rows_of`; `works` is whether it has no error.
use fie_importer.Prelude.{
  ℕ, ◌-◌, ◌≡◌, refl, sym, ap, ◌∙◌, inl, inr, Bool, false, Option, none, some, List, [], ◌∷◌, map,
  arith, if◌then◌else◌, Option-cases, length, length-append, length-take, length-drop, All, ℤ, pos,
  negsuc, pos_part, distinct_by, length-map,
}
use fie_importer.Fies.File.{File}
use fie_importer.Fies.Row.{Row, Raw2a, convert2a}
use fie_importer.Fies.Window.{window, capped}
use fie_importer.Fies.Window.Totals.{sum_rows, total_limit, total_limit-window}
use fie_importer.Fies.Window.Rows.{all_rows, take_limit, IsPlanned}
use fie_importer.Clickhouse.Server.{Server, IsServer}
use fie_importer.Clickhouse.Summary.{number_eq}
use fie_importer.Cmd.Error.{ok}
use fie_importer.Cmd.Transfer.Runs.{IsRun}
use fie_importer.Cmd.UploadFies.{UploadOptions, transfer_rows, run_upload}
use fie_importer.Cmd.UploadFies.Whole.{run_upload_succeeds}

module _ (rows_of : File → List Raw2a) where
  unfoldable pub distinct_pds : Bool → List File → Option ℕ
  distinct_pds works [] = some 0
  distinct_pds works (f ∷ files) =
      if works
      then some
          (length (distinct_by number_eq (map (λ raw. raw.pdid) (all_rows rows_of (f ∷ files)))))
      else none

  -- The numbers that a dry run prints
  pub record Figures : Type 0 where
    pub total : ℕ
    pub reads : ℕ
    pub matching : ℕ
    pub files : ℕ
    pub pds : ℕ

  unfoldable pub figures : List File → UploadOptions → ℕ → Figures
  figures files o pds =
      let reads = window files (pos_part o.offset) o.limit in
      record {
        total = total_limit reads;
        reads = length reads;
        matching = sum_rows files;
        files = length files;
        pds = pds;
      }

  unfoldable pub dry_run : Bool → List File → UploadOptions → Option Figures
  unfolding figures
  dry_run works files o = elim (distinct_pds works files) [
    | none ↦ none
    | some pds ↦ some (figures files o pds)
  ]

  length-all_rows :
      (files : List File)
      → All (IsPlanned rows_of) files
      → length (all_rows rows_of files) ≡ sum_rows files
  unfolding sum_rows
  length-all_rows [] h = refl
  length-all_rows (f ∷ files) (e, h) =
      let rest = length-all_rows files h in
      length-append (rows_of f) (all_rows rows_of files) ∙ omega (arith, e, rest)

length-take_limit :
    {A : Type 0} (limit : ℤ) (xs : List A) → length (take_limit limit xs) ≡ capped limit (length xs)
length-take_limit (pos n) xs = length-take n xs ∙ omega arith
length-take_limit (negsuc n) xs = refl

length-converted :
    (rows_of : File → List Raw2a) (files : List File)
    → length (all_rows (λ f. map (λ raw. convert2a raw f.interval_start) (rows_of f)) files)
      ≡ length (all_rows rows_of files)
length-converted rows_of [] = refl
length-converted rows_of (f ∷ files) =
    length-append (map (λ raw. convert2a raw f.interval_start) (rows_of f)) _
    ∙ omega (
      arith,
      length-converted rows_of files,
      length-map (λ raw. convert2a raw f.interval_start) (rows_of f),
      length-append (rows_of f) (all_rows rows_of files),
    )

module _ (s : Server Row) (laws : IsServer s) (user_set : Bool) (rows_of : File → List Raw2a)
    (fault : Bool) (o : UploadOptions) where
  -- A dry run prints what the upload of the same files with the same options would do: if that returns no error,
  -- the table that it leaves has the printed total of rows; and the printed number of rows that match the filters
  -- is that of all rows behind the WHERE clauses.
  pub dry_run-Total :
      (works : Bool) (files : List File) (printed : Figures rows_of)
      (transfer : List Row → s.State → (Bool × ℕ) × s.State) (a : s.State)
      → dry_run rows_of works files o ≡ some printed
      → All (IsPlanned rows_of) files
      → IsRun s laws o.table
          (pos_part o.batch_size)
          fault
          (transfer_rows rows_of (window files (pos_part o.offset) o.limit))
          (transfer (transfer_rows rows_of (window files (pos_part o.offset) o.limit)))
      → o.dry_run ≡ false
      → (run_upload s user_set rows_of transfer o (ok files) a).0 ≡ none
      → ((rows : List Row) × (s.table
              (run_upload s user_set rows_of transfer o (ok files) a).1
              o.table
            ≡ some rows)
          × (length rows ≡ printed.total))
        × (printed.matching ≡ length (all_rows rows_of files))
  unfolding dry_run figures
  dry_run-Total works files printed transfer a h planned runs wet worked =
      let (absent, holds) =
        run_upload_succeeds s laws user_set rows_of fault o files transfer a planned runs wet
          worked in
      let size = length-all_rows rows_of files planned in
      elim (Option-cases (distinct_pds rows_of works files)) [
        | inl failed ↦ absurd (cc (rw (dry_run, failed) at h))
        | inr (pds, counted) ↦
            let same : figures rows_of files o pds ≡ printed = cc (rw (dry_run, counted) at h) in
            rw (← same) (
              (
                _,
                holds,
                length-take_limit o.limit _
                    ∙ ap (capped o.limit) (
                        length-drop (pos_part o.offset) _
                        ∙ ap (λ n. n - pos_part o.offset) (length-converted rows_of files ∙ size))
                    ∙ sym (total_limit-window files (pos_part o.offset) o.limit),
              ),
              sym size,
            )
      ]
