-- ===== src/Fies/Source/Opened.antt =====
-- The files that `Open` keeps, and the rows in them that the filter selects.
use fie_importer.Prelude.Bytes.{Bytes}
use fie_importer.Prelude.{
  ◌≡◌, refl, sym, ap, ◌∙◌, inl, inr, true, false, Option, none, List, [], ◌∷◌, arith, Bool-cases,
  Option-cases, is_empty, keep_if,
}
use Prim.Native.String.{String}
use fie_importer.Prelude.Time.{Time}
use fie_importer.Prelude.Sort.{sort}
use fie_importer.Prelude.{keep_if_kept, keep_if_left}
use fie_importer.Prelude.Sort.Kept.{sort-keep_if}
use fie_importer.Fies.File.{File}
use fie_importer.Fies.Filter.{Filter, validate, overlaps}
use fie_importer.Fies.Source.{
  Metadata, Sourced, sourced, rejected, read_metadata, read_files, with_file, starts_before,
  sorted_files, open_source,
}

module _ (parse_time : Bytes → Option Time) (metadata : String → Option Metadata) where
  -- The files that the metadata of the paths describe
  abbrev pub Describes : List String → List File → Type 0
  Describes [] [] = Unit
  Describes [] (f ∷ files) = ⊥
  Describes (path ∷ paths) [] = ⊥
  Describes (path ∷ paths) (f ∷ files) =
      (read_metadata parse_time path (metadata path) ≡ sourced f) × Describes paths files

  module _ (flt : Filter) where
    with_file_lem :
        (path : String) (paths : List String) (one : Sourced File) (rest : Sourced (List File))
        (files : List File)
        → read_metadata parse_time path (metadata path) ≡ one
        → ((found : List File)
            → rest ≡ sourced found
            → (all : List File) × Describes paths all × (found ≡ keep_if (overlaps flt) all))
        → with_file flt one rest ≡ sourced files
        → (all : List File) × Describes (path ∷ paths) all × (files ≡ keep_if (overlaps flt) all)
    with_file_lem path paths (rejected e) rest files r h s = absurd (cc)
    with_file_lem path paths (sourced f) (rejected e) files r h s = absurd (cc)
    with_file_lem path paths (sourced f) (sourced found) files r h s =
        let (all, described, kept) = h found refl in
        (
          f ∷ all,
          (r, described),
          elim (Bool-cases (overlaps flt f)) [
            | inl e ↦
                let same : f ∷ found ≡ files = cc (rw e at s) in
                sym same ∙ ap (λ l. f ∷ l) kept ∙ sym (keep_if_kept (overlaps flt) f all e)
            | inr e ↦
                let same : found ≡ files = cc (rw e at s) in
                sym same ∙ kept ∙ sym (keep_if_left (overlaps flt) f all e)
          ],
        )

    read_files_lem :
        (paths : List String) (files : List File)
        → read_files parse_time metadata flt paths ≡ sourced files
        → (all : List File) × Describes paths all × (files ≡ keep_if (overlaps flt) all)
    unfolding read_files
    read_files_lem [] files h = let same : [] ≡ files = cc in ([], tt, sym same)
    read_files_lem (path ∷ paths) files h =
        with_file_lem path paths (read_metadata parse_time path (metadata path))
          (read_files parse_time metadata flt paths) files refl
          (λ found e. read_files_lem paths found e) h

    sorted_lem :
        (r : Sourced (List File)) (files : List File)
        → sorted_files r ≡ sourced files
        → (found : List File) × (r ≡ sourced found) × (files ≡ sort starts_before found)
    sorted_lem (rejected e) files h = absurd (cc)
    sorted_lem (sourced found) files h =
        let same : sort starts_before found ≡ files = cc in (found, refl, sym same)

    start_total : (f g : File) → starts_before f g ≡ false → starts_before g f ≡ true
    start_total f g h = ground arith

    start_trans :
        (f g k : File)
        → starts_before f g ≡ true
        → starts_before g k ≡ true
        → starts_before f k ≡ true
    start_trans f g k h e = ground arith

    -- `Open` returns the files of the directory that overlap the filter's time window, in the order of
    -- their starts, and only for a valid filter.
    pub open_source_lem :
        (paths : List String) (files : List File)
        → open_source parse_time metadata flt paths ≡ sourced files
        → (validate flt ≡ none)
          × (all : List File) × Describes paths all
          × (files ≡ keep_if (overlaps flt) (sort starts_before all))
    unfolding open_source
    open_source_lem paths files h = elim (Option-cases (validate flt)) [
      | inr (e, bad) ↦ absurd (cc (rw (open_source, bad) at h))
      | inl valid ↦ elim (Bool-cases (is_empty paths)) [
        | inl nothing ↦ absurd (cc (rw (open_source, valid, nothing) at h))
        | inr some_paths ↦
            let (found, read, sorted) =
              sorted_lem (read_files parse_time metadata flt paths) files
                (rw (open_source, valid, some_paths) at h) in
            let (all, described, kept) = read_files_lem paths found read in
            (
              valid,
              all,
              described,
              sorted
                  ∙ ap (sort starts_before) kept
                  ∙ sort-keep_if starts_before start_total start_trans (overlaps flt) all,
            )
      ]
    ]
