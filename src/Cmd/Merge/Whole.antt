-- ===== src/Cmd/Merge/Whole.antt =====
-- What a successful run of merge-fies leaves.
use fie_importer.Prelude.{
  ℕ, ◌≡◌, refl, sym, ap, ◌∙◌, inl, inr, Bool, true, false, Option, none, some, List, [], ◌∷◌,
  Bool-cases, All, ℤ, pos, ltb_ℤ,
}
use fie_importer.Prelude.Time.{Time, unix, trunc_div, second}
use fie_importer.Fies.File.{File}
use fie_importer.Fies.Window.Totals.{sum_rows}
use fie_importer.Fies.Layout.{Layout, gaps, overlap, check_layout}
use fie_importer.Fies.Source.{Sourced, sourced, rejected}
use fie_importer.Fies.Merge.{Disk, MergeOptions, Merged, merged, failed, merge}
use fie_importer.Fies.Merge.Safe.{IsDisk, IsSafe, merge-IsSafe}
use fie_importer.Fies.Verify.{MergedRow, Verification, cannot_verify, panics, has_problems, verify}
use fie_importer.Fies.Layout.Disjoint.{IsDisjoint, HasLength, check_layout-IsDisjoint}
use fie_importer.Fies.Verify.Files.{IsVerified, verification_lem, verify-IsVerified}
use fie_importer.Fies.Verify.Segments.{want_from-AreApart}
use fie_importer.Cmd.Merge.{
  MergeFailure, verify_merged, merge_files, no_problems, verified_content, is_verified,
  unless_stopped, check_place, run_merge,
}

module _ {Content : Type 0} (d : Disk Content) (rows : Content → ℕ) (laws : IsDisk d rows)
    (rows_in : Content → List MergedRow) (o : MergeOptions) where
  -- The first file gives the origin and the length of the segments.
  abbrev pub VerifiesTo : Bool → List File → Content → Type 0
  VerifiesTo false files c = Unit
  VerifiesTo true [] c = ⊥
  VerifiesTo true (f ∷ files) c =
      IsVerified (unix f.interval_start) (trunc_div f.interval second) (f ∷ files) (rows_in c)

  -- Files that take some time
  abbrev pub HaveLengths : Sourced (List File) → Type 0
  HaveLengths (rejected e) = Unit
  HaveLengths (sourced files) = All HasLength files

  -- What is on the disk behind the run
  pub record IsMergeOf (source : Sourced (List File)) (verify : Bool) (a b : d.State) : Type 0 where
    pub files : List File
    pub is_source : source ≡ sourced files
    pub no_overlap : IsDisjoint files
    pub output : Content
    pub at_output : d.content b o.output ≡ some output
    pub all_rows : rows output ≡ sum_rows files
    pub is_checked : VerifiesTo verify files output

  no_problems_lem : (v : Verification) → no_problems d rows_in v ≡ true → v ≡ has_problems []
  no_problems_lem (has_problems []) h = refl
  no_problems_lem (has_problems (p ∷ ps)) h = absurd (cc)
  no_problems_lem cannot_verify h = absurd (cc)
  no_problems_lem panics h = absurd (cc)

  verify_merged_lem :
      (check : Bool) (verified : d.State → Bool) (r : Merged × d.State)
      → (verify_merged d check verified r).0 ≡ none
      → (n : ℕ) × (m : ℕ) × (r.0 ≡ merged n m)
        × (check ≡ true → verified r.1 ≡ true)
        × ((verify_merged d check verified r).1 ≡ r.1)
  unfolding verify_merged
  verify_merged_lem check verified (failed e, a) h = absurd (cc)
  verify_merged_lem check verified (merged n m, a) h = (
    n,
    m,
    refl,
    (λ on. elim (Bool-cases (verified a)) [ inl e ↦ e | inr e ↦ absurd (cc (rw (on, e) at h)) ]),
    refl,
  )

  verified_content-VerifiesTo :
      (files : List File) (c : Content)
      → All HasLength files
      → IsDisjoint files
      → verified_content d rows_in files (some c) ≡ true
      → VerifiesTo true files c
  unfolding verify
  verified_content-VerifiesTo [] c long apart h = absurd (cc)
  verified_content-VerifiesTo (f ∷ files) c long apart h =
      let none_found = no_problems_lem (verify (f ∷ files) (rows_in c)) h in
      let (m, made, fine) = verification_lem _ _ (rows_in c) _ none_found in
      verify-IsVerified f files (rows_in c) (want_from-AreApart f files m long apart made)
        none_found

  checked-VerifiesTo :
      (check : Bool) (files : List File) (c : Content)
      → All HasLength files
      → IsDisjoint files
      → (check ≡ true → verified_content d rows_in files (some c) ≡ true)
      → VerifiesTo check files c
  checked-VerifiesTo false files c long apart h = tt
  checked-VerifiesTo true files c long apart h =
      verified_content-VerifiesTo files c long apart (h refl)

  merged-IsMergeOf :
      (files : List File) (check : Bool) (a : d.State) (r : Merged × d.State)
      (found : List (Time × Time))
      → All HasLength files
      → check_layout files ≡ gaps found
      → IsSafe d rows laws o.output (sum_rows files) a r
      → (verify_merged d check (is_verified d rows_in o.output files) r).0 ≡ none
      → IsMergeOf
          (sourced files)
          check
          a
          (verify_merged d check (is_verified d rows_in o.output files) r).1
  merged-IsMergeOf files check a r found long layout safe h =
      let (n, m, worked, verified, same) =
        verify_merged_lem check (is_verified d rows_in o.output files) r h in
      let ((c, at, right), total) = safe.success n m worked in
      rw same (record {
        files = files;
        is_source = refl;
        no_overlap = check_layout-IsDisjoint files found long layout;
        output = c;
        at_output = at;
        all_rows = right;
        is_checked =
            checked-VerifiesTo check files c long (check_layout-IsDisjoint files found long layout)
              (λ on. ap (verified_content d rows_in files) (sym at) ∙ verified on);
      })

  merge_files-IsMergeOf :
      (source : Sourced (List File)) (check : Bool) (a : d.State)
      → HaveLengths source
      → (merge_files d (is_verified d rows_in o.output) source o false check a).0 ≡ none
      → IsMergeOf source check a
          (merge_files d (is_verified d rows_in o.output) source o false check a).1
  unfolding merge_files
  merge_files-IsMergeOf (rejected e) check a long h = absurd (cc)
  merge_files-IsMergeOf (sourced files) check a long h = by_layout (check_layout files) refl
    where
      by_layout :
          (l : Layout)
          → check_layout files ≡ l
          → IsMergeOf
              (sourced files)
              check
              a
              (merge_files d (is_verified d rows_in o.output) (sourced files) o false check a).1
      by_layout (overlap p c) e = absurd (cc (rw (merge_files, e) at h))
      by_layout (gaps found) e =
          rw (merge_files, e)
            (merged-IsMergeOf files check a (merge d files o a) found long e
              (merge-IsSafe d rows laws files o a) (rw (merge_files, e) at h))

  stopped_lem :
      (stop : Option MergeFailure) (r : Option MergeFailure × d.State) (a : d.State)
      → (unless_stopped d stop r a).0 ≡ none
      → (r.0 ≡ none) × (unless_stopped d stop r a ≡ r)
  stopped_lem none r a h = (h, refl)
  stopped_lem (some e) r a h = absurd (cc)

  -- If every file takes some time, and `merge-fies`, not as a dry run, returns no error, then no two of its
  -- files overlap, and the output holds as many rows as all of them together. If it was to verify them too, then the
  -- output has as many rows in the segment of each file as the file has, none in any other, and each row is in a
  -- later segment than the row before it, or in the same one and not before it by (pd_id, capture_time).
  pub run_merge-IsMergeOf :
      (threads : ℤ) (place : Option MergeFailure) (source : Sourced (List File)) (check : Bool)
      (a : d.State)
      → HaveLengths source
      → (run_merge d rows_in threads place source o false check a).0 ≡ none
      → IsMergeOf source check a (run_merge d rows_in threads place source o false check a).1
  unfolding run_merge
  run_merge-IsMergeOf threads place source check a long h =
      elim (Bool-cases (ltb_ℤ threads (pos 0))) [
        | inl e ↦ absurd (cc (rw (run_merge, e) at h))
        | inr e ↦
            let (inner, same) = stopped_lem place _ a (rw (run_merge, e) at h) in
            let (worked, as_well) = stopped_lem (check_place d false o a) _ a inner in
            rw (run_merge, e, same, as_well) (merge_files-IsMergeOf source check a long worked)
      ]
