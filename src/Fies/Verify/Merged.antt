-- ===== src/Fies/Verify/Merged.antt =====
-- `Verify` against the rows of the merged file.
use fie_importer.Prelude.{
  by_any, All-swapped, Any-none, Any-keep_if, All-of-map, map-All, map-Any, All-both, All-keep_if,
  ◌≡◌, refl, sym, ◌∙◌, inl, inr, Bool, true, false, not, ◌&&◌, List, [], ◌∷◌, map, arith,
  Bool-cases, All, ℤ, eq_of_parts, Any, Any-All, All-map,
}
use fie_importer.Fies.Verify.{
  MergedRow, eq_ℤ, Want, want_of, count_if, with_lag, distinct, seg_of, goes_back, is_unsorted,
  group_of, groups, check_groups,
}
use fie_importer.Fies.Verify.Sound.{or_zero, IsFine, check_groups-IsFine, check_groups_none}

module _ {A : Type 0} (p : A → Bool) where
  count_if_none : (xs : List A) → All (λ x. p x ≡ false) xs → count_if p xs ≡ 0
  count_if_none [] h = refl
  count_if_none (x ∷ xs) (e, h) = rw (count_if, e) (count_if_none xs h)

  none_of-count_if : (xs : List A) → count_if p xs ≡ 0 → All (λ x. p x ≡ false) xs
  none_of-count_if [] h = tt
  none_of-count_if (x ∷ xs) h = elim (Bool-cases (p x)) [
    | inl e ↦ absurd (omega (arith, rw (count_if, e) at h))
    | inr e ↦ (e, none_of-count_if xs (rw (count_if, e) at h))
  ]

pub eq_to_path : (a b : ℤ) → eq_ℤ a b ≡ true → a ≡ b
eq_to_path a b h = ground (arith, eq_of_parts a b)

pub eq_self : (a : ℤ) → eq_ℤ a a ≡ true
eq_self a = ground arith

-- `distinct` loses no segment.
Any-distinct :
    (seg : ℤ) (segs : List ℤ)
    → Any (λ s. eq_ℤ s seg ≡ true) segs
    → Any (λ s. eq_ℤ s seg ≡ true) (distinct segs)
Any-distinct seg [] h = h
Any-distinct seg (s ∷ segs) (inl e) = inl e
Any-distinct seg (s ∷ segs) (inr h) = elim (Bool-cases (eq_ℤ s seg)) [
  | inl e ↦ inl e
  | inr e ↦ inr (
      Any-keep_if (λ x. not (eq_ℤ s x)) (λ x. eq_ℤ x seg ≡ true) (λ x same. ground arith)
        (distinct segs) (Any-distinct seg segs h))
]

All-distinct : (P : ℤ → Type 0) (segs : List ℤ) → All P segs → All P (distinct segs)
All-distinct P [] h = tt
All-distinct P (s ∷ segs) (ps, h) =
    (ps, All-keep_if (λ x. not (eq_ℤ s x)) P (distinct segs) (All-distinct P segs h))

All-with_lag :
    (P : MergedRow → Type 0) (rows : List MergedRow) → All P rows → All (λ x. P x.1) (with_lag rows)
All-with_lag P [] h = tt
All-with_lag P (r ∷ []) h = tt
All-with_lag P (p ∷ r ∷ rows) (pp, (pr, h)) = (pr, All-with_lag P (r ∷ rows) (pr, h))

module _ (origin secs : ℤ) (rows : List MergedRow) (m : Want) where
  abbrev segment : MergedRow → ℤ
  segment = seg_of origin secs

  abbrev segments : List ℤ
  segments = distinct (map segment rows)

  -- Every segment has as many rows as it should, the segments follow each other, and the rows of a segment
  -- are in the order of (pd_id, capture_time).
  pub record IsMerged : Type 0 where
    pub right_counts :
        (seg : ℤ) → count_if (λ r. eq_ℤ (segment r) seg) rows ≡ or_zero (want_of seg m)
    pub in_order :
        All
          (λ x. (goes_back origin secs x ≡ false) × (is_unsorted origin secs x ≡ false))
          (with_lag rows)

  own_segment :
      (rs : List MergedRow) → All (λ r. Any (λ s. eq_ℤ s (segment r) ≡ true) (map segment rs)) rs
  own_segment [] = tt
  own_segment (r ∷ rs) = (inl (eq_self (segment r)), All-map _ _ (λ x h. inr h) rs (own_segment rs))

  module _ (h : check_groups (groups origin secs rows) m ≡ []) where
    All-IsFine : All (λ s. IsFine (group_of origin secs rows s) (want_of s m)) segments
    unfolding groups group_of
    All-IsFine =
        All-of-map (group_of origin secs rows) (λ g. IsFine g (want_of g.seg m)) segments
          (check_groups-IsFine (groups origin secs rows) m h)

    count_of :
        (s seg : ℤ)
        → eq_ℤ s seg ≡ true
        → IsFine (group_of origin secs rows s) (want_of s m)
        → count_if (λ r. eq_ℤ (segment r) seg) rows ≡ or_zero (want_of seg m)
    unfolding group_of
    count_of s seg e fine = let same = eq_to_path s seg e in rw (← same, fine.0) refl

    no_group :
        (seg : ℤ)
        → All (λ r. eq_ℤ (segment r) seg ≡ false) rows
        → All (λ g. eq_ℤ g.seg seg ≡ false) (groups origin secs rows)
    unfolding groups group_of
    no_group seg no_row =
        map-All (group_of origin secs rows) (λ g. eq_ℤ g.seg seg ≡ false) segments
          (All-distinct (λ s. eq_ℤ s seg ≡ false) (map segment rows)
            (map-All segment (λ s. eq_ℤ s seg ≡ false) rows no_row))

    counts : (seg : ℤ) → count_if (λ r. eq_ℤ (segment r) seg) rows ≡ or_zero (want_of seg m)
    counts seg = elim (Any-none (λ r. eq_ℤ (segment r) seg) rows) [
      | inl some_row ↦
          by_any _ (λ s both. count_of s seg both.0 both.1) segments
            (Any-All _ _ segments
              (Any-distinct seg (map segment rows)
                (map-Any segment (λ s. eq_ℤ s seg ≡ true) rows some_row))
              All-IsFine)
      | inr no_row ↦
          count_if_none (λ r. eq_ℤ (segment r) seg) rows no_row
          ∙ sym (check_groups_none (groups origin secs rows) m seg h (no_group seg no_row))
    ]

    -- The pairs of one segment, of a group without a problem
    fine_pairs :
        (s : ℤ)
        → IsFine (group_of origin secs rows s) (want_of s m)
        → All
            (λ x.
              ((eq_ℤ (segment x.1) s && goes_back origin secs x) ≡ false)
              × ((eq_ℤ (segment x.1) s && is_unsorted origin secs x) ≡ false))
            (with_lag rows)
    unfolding group_of
    fine_pairs s fine =
        All-both _ _ (with_lag rows)
          (none_of-count_if (λ x. eq_ℤ (segment x.1) s && goes_back origin secs x) (with_lag rows)
            fine.1)
          (none_of-count_if (λ x. eq_ℤ (segment x.1) s && is_unsorted origin secs x) (with_lag rows)
            fine.2)

    same_segment :
        (s t : ℤ) (back unsorted : Bool)
        → eq_ℤ s t ≡ true
        → ((eq_ℤ t s && back) ≡ false) × ((eq_ℤ t s && unsorted) ≡ false)
        → (back ≡ false) × (unsorted ≡ false)
    same_segment s t back unsorted e both =
        let f : eq_ℤ t s ≡ true = ground arith in
        (rw (◌&&◌, f) at (both.0), rw (◌&&◌, f) at (both.1))

    abbrev PairFine : ℤ → MergedRow × MergedRow → Type 0
    PairFine s x =
        ((eq_ℤ (segment x.1) s && goes_back origin secs x) ≡ false)
        × ((eq_ℤ (segment x.1) s && is_unsorted origin secs x) ≡ false)

    ordered :
        All
          (λ x. (goes_back origin secs x ≡ false) × (is_unsorted origin secs x ≡ false))
          (with_lag rows)
    ordered =
        let fine =
          All-swapped PairFine segments (with_lag rows)
            (All-map _ _ (λ s f. fine_pairs s f) segments All-IsFine) in
        let own =
          All-with_lag (λ r. Any (λ s. eq_ℤ s (segment r) ≡ true) segments) rows
            (All-map _ _ (λ r one. Any-distinct (segment r) (map segment rows) one) rows
              (own_segment rows)) in
        All-map _ _
          (λ x both.
            by_any _
              (λ s y.
                same_segment s (segment x.1) (goes_back origin secs x) (is_unsorted origin secs x)
                  y.0 y.1)
              segments (Any-All _ _ segments both.0 both.1))
          (with_lag rows) (All-both _ _ (with_lag rows) own fine)

  -- If `Verify` finds no problem in a merged file, then every segment has as many rows as its input file, the
  -- segments follow each other, and the rows of a segment are in the order of (pd_id, capture_time).
  pub check_groups-IsMerged : check_groups (groups origin secs rows) m ≡ [] → IsMerged
  check_groups-IsMerged h = record { right_counts = counts h; in_order = ordered h }
