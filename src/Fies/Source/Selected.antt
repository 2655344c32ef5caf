-- ===== src/Fies/Source/Selected.antt =====
-- The rows of the files that are planned, against the filter's own meaning over the whole directory.
use fie_importer.Prelude.Bytes.{Bytes}
use fie_importer.Prelude.{
  ℕ, ◌≡◌, refl, sym, ap, ◌∙◌, inl, inr, Bool, false, ◌&&◌, ◌||◌, Option, none, some, List, [], ◌∷◌,
  ◌++◌, map, Bool-cases, All, ltb_ℤ, leb_ℤ, keep_if, keep_if_kept, keep_if_left, keep_if_none,
  keep_if_same, All-map,
}
use Prim.Native.String.{String}
use fie_importer.Prelude.Time.{Time, is_zero}
use fie_importer.Fies.File.{File}
use fie_importer.Fies.Row.{Raw2a}
use fie_importer.Fies.Filter.{Filter, overlaps, selects}
use fie_importer.Fies.Filter.Select.{IsInFile, keeps_pd, capture_time, selects_same}
use fie_importer.Fies.Filter.Overlap.{overlaps-selects}
use fie_importer.Fies.Window.Rows.{all_rows}
use fie_importer.Fies.Source.{
  Metadata, Sourced, sourced, rejected, read_metadata, rows_of, counted, plan,
}
use fie_importer.Fies.Source.Opened.{Describes}

-- What the filter means: its PDs, and the capture times in [Start, End), where a zero time is no bound.
abbrev pub passes : (ℕ → ℕ → ℕ) → Filter → File → Raw2a → Bool
passes hash flt f raw =
    keeps_pd hash flt raw
    && ((is_zero flt.start || leb_ℤ flt.start (capture_time f raw))
        && (is_zero flt.end || ltb_ℤ (capture_time f raw) flt.end))

module _ (hash : ℕ → ℕ → ℕ) (data_of : String → List Raw2a) (flt : Filter) where
  abbrev pub AreInFile : File → Type 0
  AreInFile f = All (IsInFile f) (data_of f.path)

  -- The rows of a file that pass the filter
  abbrev pub passing : File → List Raw2a
  passing f = keep_if (passes hash flt f) (data_of f.path)

  rows_of-passing : (f : File) → AreInFile f → rows_of hash data_of flt f ≡ passing f
  rows_of-passing f h =
      keep_if_same (selects hash flt f) (passes hash flt f) (data_of f.path)
        (All-map _ _ (λ raw inside. selects_same hash flt f raw inside) (data_of f.path) h)

  not_selected :
      (f : File) (raw : Raw2a)
      → overlaps flt f ≡ false
      → IsInFile f raw
      → selects hash flt f raw ≡ false
  not_selected f raw out inside = elim (Bool-cases (selects hash flt f raw)) [
    | inl e ↦ absurd (cc (overlaps-selects hash flt f raw inside e))
    | inr e ↦ e
  ]

  nothing_passes : (f : File) → AreInFile f → overlaps flt f ≡ false → passing f ≡ []
  nothing_passes f h out =
      sym (rows_of-passing f h)
      ∙ keep_if_none (selects hash flt f) (data_of f.path)
          (All-map _ _ (λ raw inside. not_selected f raw out inside) (data_of f.path) h)

  module _ {B : Type 0} (convert : File → Raw2a → B) where
    -- The files that `Open` drops have no row that passes.
    pub all_rows-overlaps :
        (files : List File)
        → All AreInFile files
        → all_rows
            (λ f. map (convert f) (rows_of hash data_of flt f))
            (keep_if (overlaps flt) files)
          ≡ all_rows (λ f. map (convert f) (passing f)) files
    all_rows-overlaps [] h = refl
    all_rows-overlaps (f ∷ files) (hf, h) = elim (Bool-cases (overlaps flt f)) [
      | inl e ↦
          ap (all_rows (λ f. map (convert f) (rows_of hash data_of flt f)))
            (keep_if_kept (overlaps flt) f files e)
          ∙ ap
              (λ l.
                map (convert f) l
                ++ all_rows (λ f. map (convert f) (rows_of hash data_of flt f))
                    (keep_if (overlaps flt) files))
              (rows_of-passing f hf)
          ∙ ap (λ l. map (convert f) (passing f) ++ l) (all_rows-overlaps files h)
      | inr e ↦
          ap (all_rows (λ f. map (convert f) (rows_of hash data_of flt f)))
            (keep_if_left (overlaps flt) f files e)
          ∙ all_rows-overlaps files h
          ∙ ap (λ l. map (convert f) l ++ all_rows (λ f. map (convert f) (passing f)) files)
              (sym (nothing_passes f hf e))
    ]

-- `Plan` sets the numbers of rows only.
module _ {B : Type 0} (rows : File → List B)
    (same : (f : File) (n : ℕ) → rows (record f { rows = n }) ≡ rows f)
    (count : File → Option ℕ) where
  counted_rows :
      (f : File) (n : Option ℕ) (rest : Sourced (List File)) (files planned : List File)
      → ((found : List File) → rest ≡ sourced found → all_rows rows found ≡ all_rows rows files)
      → counted f n rest ≡ sourced planned
      → all_rows rows planned ≡ rows f ++ all_rows rows files
  counted_rows f none rest files planned h e = absurd (cc)
  counted_rows f (some n) (rejected x) files planned h e = absurd (cc)
  counted_rows f (some n) (sourced found) files planned h e =
      let whole : record f { rows = n } ∷ found ≡ planned = cc in
      ap (all_rows rows) (sym whole)
      ∙ ap (λ l. l ++ all_rows rows found) (same f n)
      ∙ ap (λ l. rows f ++ l) (h found refl)

  pub all_rows-plan :
      (files planned : List File)
      → plan count files ≡ sourced planned
      → all_rows rows planned ≡ all_rows rows files
  unfolding plan
  all_rows-plan [] planned h = let nothing : [] ≡ planned = cc in ap (all_rows rows) (sym nothing)
  all_rows-plan (f ∷ files) planned h =
      counted_rows f (count f) (plan count files) files planned
        (λ found e. all_rows-plan files found e) h

module _ (parse_time : Bytes → Option Time) (metadata : String → Option Metadata)
    (P : File → Type 0)
    (each : (path : String) (f : File)
      → read_metadata parse_time path (metadata path) ≡ sourced f
      → P f) where
  pub Describes-All :
      (paths : List String) (all : List File) → Describes parse_time metadata paths all → All P all
  Describes-All [] [] h = tt
  Describes-All [] (f ∷ all) h = absurd h
  Describes-All (path ∷ paths) [] h = absurd h
  Describes-All (path ∷ paths) (f ∷ all) (e, h) = (each path f e, Describes-All paths all h)
