-- ===== src/Clickhouse/Fdhs/Count.antt =====
-- The number of rows that compute-fdhs expects.
use fie_importer.Prelude.{
  ℕ, ◌+◌, ◌≤◌, ◌≡◌, refl, ◌↔◌, ◌⊎◌, inl, inr, true, not, List, [], ◌∷◌, arith, ltb, ◌==◌,
  if◌then◌else◌, Bool-cases, Option-cases, ltb→lt, length, length-append, All,
}
use fie_importer.Prelude.Bytes.{Bytes}
use fie_importer.Clickhouse.Fdhs.{
  is_zero_addr, is_present, join_pds, fdhs_of, fdh_rows, has_pd, one_if, count_fdh_source,
}
use fie_importer.Fies.Row
use fie_importer.Pds.Parse

-- How often an ID stands in the PD table
abbrev pub times : ℕ → List Parse.Row → ℕ
times id [] = 0
times id (p ∷ ps) = one_if (id == p.pdid) + times id ps

-- The PDs that the FIEs with a near reply refer to stand in the PD table at most once.
abbrev pub IsKeyed : List Row.Row → List Parse.Row → Type 0
IsKeyed fs ps = All (λ f. is_present f.near_reply_addr ≡ true → times f.pdid ps ≤ 1) fs

length-join_pds :
    (f : Row.Row) (near : Bytes) (ps : List Parse.Row)
    → length (join_pds f near ps) ≡ times f.pdid ps
unfolding join_pds
length-join_pds f near [] = refl
length-join_pds f near (p ∷ ps) = ground (arith, length-join_pds f near ps)

has_pd-times : (id : ℕ) (ps : List Parse.Row) → has_pd id ps ≡ ltb 0 (times id ps)
has_pd-times id [] = refl
has_pd-times id (p ∷ ps) = ground (arith, has_pd-times id ps)

-- An FIE counts as one without a PD exactly if its PD is not there.
missing_cases :
    (id : ℕ) (ps : List Parse.Row)
    → ((times id ps ≡ 0) × (one_if (not (has_pd id ps)) ≡ 1))
      ⊎ ((1 ≤ times id ps) × (one_if (not (has_pd id ps)) ≡ 0))
missing_cases id ps = elim (Bool-cases (ltb 0 (times id ps))) [
  | inl e ↦ inr (ltb→lt 0 (times id ps) e, rw (has_pd-times, e) refl)
  | inr e ↦ inl (ground (arith, e), rw (has_pd-times, e) refl)
]

length-fdhs_of :
    (f : Row.Row) (ps : List Parse.Row)
    → length (fdhs_of f ps) ≡ (if is_present f.near_reply_addr then times f.pdid ps else 0)
unfolding fdhs_of
length-fdhs_of f ps = elim (Option-cases f.near_reply_addr) [
  | inl e ↦ rw e refl
  | inr (near, e) ↦ elim (Bool-cases (is_zero_addr near)) [
    | inl zero_near ↦ rw (e, zero_near) refl
    | inr good ↦ rw (e, good) (length-join_pds f near ps)
  ]
]

-- The FDH rows are at least the FIEs with a near reply less those without a PD; and they are as many as
-- that, which is what compute-fdhs tests, exactly if no PD that is referred to is there twice.
pub length-fdh_rows :
    (fs : List Row.Row) (ps : List Parse.Row)
    → ((count_fdh_source fs ps).near_fies
        ≤ length (fdh_rows fs ps) + (count_fdh_source fs ps).missing_pd)
      × ((length (fdh_rows fs ps) + (count_fdh_source fs ps).missing_pd
            ≡ (count_fdh_source fs ps).near_fies)
          ↔ IsKeyed fs ps)
unfolding fdh_rows count_fdh_source
length-fdh_rows [] ps = (omega arith, ((λ e. tt), (λ u. refl)))
length-fdh_rows (f ∷ fs) ps =
    let (enough, (keyed, whole)) = length-fdh_rows fs ps in
    let size = length-append (fdhs_of f ps) (fdh_rows fs ps) in
    let own = length-fdhs_of f ps in
    elim (Bool-cases (is_present f.near_reply_addr)) [
      | inr absent ↦
          let none_own : length (fdhs_of f ps) ≡ 0 = rw absent at own in
          rw absent (
            omega (arith, size, none_own),
            (
              (λ e. ((λ h. cc), keyed (omega (arith, size, none_own)))),
              (λ (h, hs). omega (arith, size, none_own, whole hs)),
            ),
          )
      | inl present ↦
          let some_own : length (fdhs_of f ps) ≡ times f.pdid ps = rw present at own in
          elim (missing_cases f.pdid ps) [
            | inl (zero_times, one) ↦ rw present (
              omega (arith, size, some_own, zero_times, one),
              (
                (λ e. (
                  (λ h. omega (arith, zero_times)),
                  keyed (omega (arith, size, some_own, zero_times, one)),
                )),
                (λ (h, hs). omega (arith, size, some_own, zero_times, one, whole hs)),
              ),
            )
            | inr (some_times, nil) ↦ rw present (
              omega (arith, size, some_own, some_times, nil),
              (
                (λ e. (
                  (λ h. omega (arith, size, some_own, some_times, nil)),
                  keyed (omega (arith, size, some_own, some_times, nil)),
                )),
                (λ (h, hs). omega (arith, size, some_own, some_times, nil, h refl, whole hs)),
              ),
            )
          ]
    ]
