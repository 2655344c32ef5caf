-- ===== src/Fies/Verify/Files.antt =====
-- `Verify` against the input files.
use fie_importer.Prelude.{
  true, ◌<◌, ◌⊎◌, ◌&&◌, ◌||◌, ◌==◌, ltb, ltb_ℤ, ◌<ℤ◌, ◌≤ℤ◌, arith, ◌≡◌, refl, sym, ap, ◌∙◌, inl,
  inr, false, none, some, List, [], ◌∷◌, Bool-cases, All, ℤ, pos, ◌-ℤ◌, All-map,
}
use fie_importer.Prelude.Time.{second, trunc_div, unix}
use fie_importer.Fies.File.{File}
use fie_importer.Fies.Verify.{
  MergedRow, eq_ℤ, quotient, has_remainder, Want, want_of, delete, Wanted, not_aligned,
  divides_by_zero, wanted, want_from, count_if, with_lag, seg_of, goes_back, is_unsorted, groups,
  check_groups, has_problems, verification, verify,
}
use fie_importer.Fies.Verify.Sound.{or_zero, kept}
use fie_importer.Fies.Verify.Merged.{check_groups-IsMerged, eq_self, eq_to_path}

module _ (origin secs : ℤ) where
  -- The segment of an input file
  abbrev pub segment_of : File → ℤ
  segment_of f = quotient (unix f.interval_start -ℤ origin) secs

  -- No two files have one segment.
  abbrev pub AreApart : List File → Type 0
  AreApart [] = Unit
  AreApart (f ∷ files) =
      All (λ g. eq_ℤ (segment_of g) (segment_of f) ≡ false) files × AreApart files

  abbrev pub next_want : File → Want → Want
  next_want f m = (segment_of f, f.rows) ∷ delete (segment_of f) m

  -- A file that the loop takes has the length of all, which is not 0.
  pub want_from_step :
      (f : File) (files : List File) (m n : Want)
      → want_from origin secs (f ∷ files) m ≡ wanted n
      → (eq_ℤ (trunc_div f.interval second) secs ≡ true)
        × (eq_ℤ secs (pos 0) ≡ false)
        × (want_from origin secs files (next_want f m) ≡ wanted n)
  unfolding want_from
  want_from_step f files m n h = elim (Bool-cases (eq_ℤ (trunc_div f.interval second) secs)) [
    | inr e ↦ absurd (cc (rw (want_from, e) at h))
    | inl e ↦ elim (Bool-cases (eq_ℤ secs (pos 0))) [
      | inl z ↦ absurd (cc (rw (want_from, e, z) at h))
      | inr z ↦ elim (Bool-cases (has_remainder (unix f.interval_start -ℤ origin) secs)) [
        | inl r ↦ absurd (cc (rw (want_from, e, z, r) at h))
        | inr r ↦ (e, z, rw (want_from, e, z, r) at h)
      ]
    ]
  ]

  pub want_from_next :
      (f : File) (files : List File) (m n : Want)
      → want_from origin secs (f ∷ files) m ≡ wanted n
      → want_from origin secs files (next_want f m) ≡ wanted n
  want_from_next f files m n h = (want_from_step f files m n h).2

  want_of-next_want :
      (f : File) (m : Want) (seg : ℤ)
      → eq_ℤ (segment_of f) seg ≡ false
      → want_of seg (next_want f m) ≡ want_of seg m
  want_of-next_want f m seg e = unfold want_of in rw (want_of, e) (kept m (segment_of f) seg e)

  want_from_nil : (m n : Want) → want_from origin secs [] m ≡ wanted n → m ≡ n
  unfolding want_from
  want_from_nil m n h = cc

  want_of_nil : (seg : ℤ) → want_of seg [] ≡ none
  unfolding want_of
  want_of_nil seg = refl

  want_from_kept :
      (files : List File) (m n : Want) (seg : ℤ)
      → want_from origin secs files m ≡ wanted n
      → All (λ f. eq_ℤ (segment_of f) seg ≡ false) files
      → want_of seg n ≡ want_of seg m
  want_from_kept [] m n seg h others = ap (want_of seg) (sym (want_from_nil m n h))
  want_from_kept (f ∷ files) m n seg h (other, others) =
      want_from_kept files (next_want f m) n seg (want_from_next f files m n h) others
      ∙ want_of-next_want f m seg other

  want_of_own : (f : File) (m : Want) → want_of (segment_of f) (next_want f m) ≡ some f.rows
  unfolding want_of
  want_of_own f m = let e = eq_self (segment_of f) in rw (want_of, e) refl

  want_of_files :
      (files : List File) (m n : Want)
      → AreApart files
      → want_from origin secs files m ≡ wanted n
      → All (λ f. want_of (segment_of f) n ≡ some f.rows) files
  want_of_files [] m n apart h = tt
  want_of_files (f ∷ files) m n (others, apart) h =
      let rest = want_from_next f files m n h in
      (
        want_from_kept files (next_want f m) n (segment_of f) rest others ∙ want_of_own f m,
        want_of_files files (next_want f m) n apart rest,
      )

  -- A row may follow another one: in a later segment, or in the same one with a higher PD ID, or with the same
  -- one and no earlier.
  abbrev pub MayFollow : MergedRow → MergedRow → Type 0
  MayFollow p r =
      (seg_of origin secs p <ℤ seg_of origin secs r)
      ⊎ (seg_of origin secs p ≡ seg_of origin secs r)
        × ((p.pd_id < r.pd_id) ⊎ (p.pd_id ≡ r.pd_id) × (p.capture_time ≤ℤ r.capture_time))

  MayFollow_lem :
      (p r : MergedRow)
      → goes_back origin secs (p, r) ≡ false
      → is_unsorted origin secs (p, r) ≡ false
      → MayFollow p r
  MayFollow_lem p r back unsorted =
      elim (Bool-cases (ltb_ℤ (seg_of origin secs p) (seg_of origin secs r))) [
        | inl e ↦ inl (ground arith)
        | inr e ↦
            let same : eq_ℤ (seg_of origin secs p) (seg_of origin secs r) ≡ true = ground arith in
            inr (eq_to_path _ _ same, in_segment (rw (◌&&◌, same) at unsorted))
      ]
    where
      in_segment :
          (ltb r.pd_id p.pd_id || (r.pd_id == p.pd_id && ltb_ℤ r.capture_time p.capture_time))
            ≡ false
          → (p.pd_id < r.pd_id) ⊎ (p.pd_id ≡ r.pd_id) × (p.capture_time ≤ℤ r.capture_time)
      in_segment h = elim (Bool-cases (ltb p.pd_id r.pd_id)) [
        | inl e ↦ inl (ground arith)
        | inr e ↦ inr (ground arith, ground arith)
      ]

  abbrev pub AreInOrder : List MergedRow → Type 0
  AreInOrder [] = Unit
  AreInOrder (r ∷ []) = Unit
  AreInOrder (p ∷ r ∷ rows) = MayFollow p r × AreInOrder (r ∷ rows)

  pairs-AreInOrder :
      (rows : List MergedRow)
      → All
          (λ x. (goes_back origin secs x ≡ false) × (is_unsorted origin secs x ≡ false))
          (with_lag rows)
      → AreInOrder rows
  pairs-AreInOrder [] h = tt
  pairs-AreInOrder (r ∷ []) h = tt
  pairs-AreInOrder (p ∷ r ∷ rows) (h, hs) =
      (MayFollow_lem p r h.0 h.1, pairs-AreInOrder (r ∷ rows) hs)

  -- What a merged file is to the input files
  pub record IsVerified (files : List File) (rows : List MergedRow) : Type 0 where
    pub file_counts :
        All (λ f. count_if (λ r. eq_ℤ (seg_of origin secs r) (segment_of f)) rows ≡ f.rows) files
    pub no_others :
        (seg : ℤ)
        → All (λ f. eq_ℤ (segment_of f) seg ≡ false) files
        → count_if (λ r. eq_ℤ (seg_of origin secs r) seg) rows ≡ 0
    pub in_order : AreInOrder rows

  pub verification_lem :
      (rows : List MergedRow) (w : Wanted)
      → verification origin secs rows w ≡ has_problems []
      → (m : Want) × (w ≡ wanted m) × (check_groups (groups origin secs rows) m ≡ [])
  verification_lem rows not_aligned h = absurd (cc)
  verification_lem rows divides_by_zero h = absurd (cc)
  verification_lem rows (wanted m) h = (m, refl, cc)

  verified :
      (files : List File) (rows : List MergedRow)
      → AreApart files
      → verification origin secs rows (want_from origin secs files []) ≡ has_problems []
      → IsVerified files rows
  verified files rows apart h =
      let (m, made, fine) = verification_lem rows _ h in
      let merged = check_groups-IsMerged origin secs rows m fine in
      record {
        file_counts =
            All-map _ _ (λ f w. merged.right_counts (segment_of f) ∙ ap or_zero w) files
              (want_of_files files [] m apart made);
        no_others = λ seg others.
            merged.right_counts seg
            ∙ ap or_zero (want_from_kept files [] m seg made others ∙ want_of_nil seg);
        in_order = pairs-AreInOrder rows merged.in_order;
      }

-- If `Verify` returns nil, and no two input files have one segment, then the merged file has as many rows in the
-- segment of each input file as the file, and none in any other segment; and each row is in a later segment than
-- the row before it, or in the same one and not before it in the order of (pd_id, capture_time).
pub verify-IsVerified :
    (f : File) (files : List File) (rows : List MergedRow)
    → AreApart (unix f.interval_start) (trunc_div f.interval second) (f ∷ files)
    → verify (f ∷ files) rows ≡ has_problems []
    → IsVerified (unix f.interval_start) (trunc_div f.interval second) (f ∷ files) rows
unfolding verify
verify-IsVerified f files rows apart h = verified _ _ (f ∷ files) rows apart h
