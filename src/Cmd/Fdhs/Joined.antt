-- ===== src/Cmd/Fdhs/Joined.antt =====
-- What a compute-fdhs that ends without an error leaves in its table.
use fie_importer.Prelude.{
  ℕ, ◌+◌, ◌^◌, ◌<◌, ◌≡◌, refl, sym, ap, ◌∙◌, ◌≢◌, inl, inr, Bool, true, false, Option, none, some,
  List, [], ◌∷◌, ◌++◌, map, append-nil, arith, ◌==◌, ==_iff, Bool-cases, Option-cases, length,
  length-map,
}
use fie_importer.Prelude.Bytes.{Bytes}
use fie_importer.Prelude.Bag.{total, SameItems, total-append}
use fie_importer.Net.{bytes_eq, bytes_eq_refl}
use fie_importer.Clickhouse.Fdhs.{
  FdhSource, Stored, fdh, fies_in, pds_in, fdh_rows, count_fdh_source,
}
use fie_importer.Clickhouse.Fdhs.Count.{IsKeyed, length-fdh_rows}
use fie_importer.Clickhouse.Names.{validate_table_name}
use fie_importer.Clickhouse.Server.{Server, IsServer, SameTables}
use fie_importer.Cmd.Error.{Error, Failure, ok, and_then_succeeds, cannot_summarize}
use fie_importer.Cmd.Upload.{check_count}
use fie_importer.Cmd.Table.{create_table, open_existing, open_table, new_table}
use fie_importer.Cmd.Table.Opened.{open_table-Opened, Opened-new, Opened-others}
use fie_importer.Cmd.Table.Guarded.{guarded_succeeds}
use fie_importer.Cmd.Fdhs.{
  FdhClient, fdh_fie_columns, fdh_pd_columns, check_fdh_tables, check_fdh_input, lift, count_input,
  expected_rows, prepare_fdhs, insert_fdhs_or_kill, fill_fdhs, compute_fdhs, run_compute_fdhs,
}
use fie_importer.Cmd.Fdhs.Source.{with_source, with_source-IsServer}
use fie_importer.Cmd.Fdhs.Outcomes.{IsFdhClient, input_same, prepare_fdhs-IsCreate}

-- What ClickHouse documents of the count and of the insert: the counts are the numbers of the rows, as UInt64; an
-- INSERT … SELECT adds rows of its SELECT, in any order, and none more often than it has it. That it adds all
-- of them is not assumed.
pub record IsFdhInsert {s : Server Stored} (ch : FdhClient s) : Type 0 where
  pub source_right :
      (f p : Bytes) (a : s.State) (n : FdhSource) (fs ps : List Stored)
      → (ch.count_source f p a).0 ≡ some n
      → s.table a f ≡ some fs
      → s.table a p ≡ some ps
      → (n ≡ count_fdh_source (fies_in fs) (pds_in ps)) × (n.near_fies < 2 ^ 64)
  pub insert_part :
      (t f p : Bytes) (a : s.State) (before fs ps : List Stored)
      → (ch.insert_fdhs t f p a).0 ≡ true
      → s.table a t ≡ some before
      → s.table a f ≡ some fs
      → s.table a p ≡ some ps
      → (after : List Stored) × (left_out : List Stored) × (s.table (ch.insert_fdhs t f p a).1 t
          ≡ some after)
        × SameItems (after ++ left_out) (before ++ map fdh (fdh_rows (fies_in fs) (pds_in ps)))

total_ones : {A : Type 0} (xs : List A) → total (λ x. 1) xs ≡ length xs
total_ones [] = refl
total_ones (x ∷ xs) = omega (arith, total_ones xs)

nothing_left : {A : Type 0} (xs : List A) → length xs ≡ 0 → xs ≡ []
nothing_left [] h = refl
nothing_left (x ∷ xs) h = absurd (omega arith)

-- A part of a list that is as long as the list has all of it.
whole_part :
    {A : Type 0} (part rest all : List A)
    → SameItems (part ++ rest) all
    → length part ≡ length all
    → SameItems part all
whole_part part rest all same long =
    let none_left : rest ≡ [] = nothing_left rest (
      omega (
        arith,
        long,
        total_ones part,
        total_ones rest,
        total_ones all,
        total-append (λ x. 1) part rest,
        same (λ x. 1),
      )) in
    λ weight.
      ap (λ r. total weight r) (sym (ap (λ r. part ++ r) none_left ∙ append-nil part)) ∙ same weight

expected_lem :
    (src : FdhSource) (n : ℕ)
    → src.near_fies < 2 ^ 64
    → n + src.missing_pd ≡ src.near_fies
    → expected_rows src ≡ n
unfolding expected_rows
expected_lem src n small h = omega (arith, small, h)

check_count_lem :
    (e : Error) (o : Option ℕ) (sent : ℕ) → check_count e o sent ≡ none → o ≡ some sent
unfolding check_count
check_count_lem e none sent h = absurd (cc)
check_count_lem e (some n) sent h = elim (Bool-cases (n == sent)) [
  | inl same ↦ ap (λ k. some k) ((==_iff n sent).0 same)
  | inr differ ↦ absurd (cc (rw (check_count, differ) at h))
]

module _ {Row : Type 0} (w : Server Row) (laws : IsServer w)
    (make : Bytes → w.State → Failure × w.State) where
  open_existing_lem :
      (there : Option Bool) (n : Bytes) (c : w.State) (created : Bool)
      → (open_existing w there make false n c).0 ≡ ok created
      → ((make n c).0 ≡ none) × ((open_existing w there make false n c).1 ≡ (make n c).1)
  unfolding open_existing
  open_existing_lem none n c created h = absurd (cc)
  open_existing_lem (some true) n c created h = absurd (cc)
  open_existing_lem (some false) n c created h = elim (Option-cases (make n c).0) [
    | inl fine ↦ (fine, refl)
    | inr (e, bad) ↦ absurd (cc (rw bad at h))
  ]

  -- A new table is what `make` left, from the tables as they were.
  open_table_lem :
      (user_set : Bool) (n : Bytes) (a : w.State) (created : Bool)
      → (open_table w user_set make false n a).0 ≡ ok created
      → (c : w.State) × SameTables w a c
        × ((make n c).0 ≡ none)
        × ((open_table w user_set make false n a).1 ≡ (make n c).1)
  unfolding open_table
  open_table_lem user_set n a created h = elim (Bool-cases user_set) [
    | inr e ↦ absurd (cc (rw e at h))
    | inl e ↦ elim (Bool-cases (w.connect a).0) [
      | inr f ↦ absurd (cc (rw (e, f) at h))
      | inl f ↦
          let b = (w.connect a).1 in
          let c = (w.exists n b).1 in
          let (fine, same) = open_existing_lem (w.exists n b).0 n c created (rw (e, f) at h) in
          (
            c,
            (λ other. laws.exists_same n b other ∙ laws.connect_same a other),
            fine,
            rw (e, f) same,
          )
    ]
  ]

module _ (s : Server Stored) (laws : IsServer s) (ch : FdhClient s) (reads : IsFdhClient ch)
    (inserts : IsFdhInsert ch) where
  abbrev run : Server Stored
  run = with_source s

  abbrev run_laws : IsServer run
  run_laws = with_source-IsServer s laws

  insert_or_kill_done :
      (n f p : Bytes) (a : s.State)
      → (insert_fdhs_or_kill s ch n f p a).0 ≡ true
      → ((ch.insert_fdhs n f p a).0 ≡ true)
        × (insert_fdhs_or_kill s ch n f p a ≡ (true, (ch.insert_fdhs n f p a).1))
  unfolding insert_fdhs_or_kill
  insert_or_kill_done n f p a h = elim (Bool-cases (ch.has_query_id a)) [
    | inr e ↦ absurd (ground arith)
    | inl e ↦ elim (Bool-cases (ch.insert_fdhs n f p a).0) [
      | inl done ↦ rw (e, done) (refl, refl)
      | inr failed ↦ absurd (ground arith)
    ]
  ]

  abbrev joined : List Stored → List Stored → List Stored
  joined fs ps = map fdh (fdh_rows (fies_in fs) (pds_in ps))

  abbrev IsCounted : List Stored → List Stored → FdhSource → Type 0
  IsCounted fs ps n = (n ≡ count_fdh_source (fies_in fs) (pds_in ps)) × (n.near_fies < 2 ^ 64)

  fill_fdhs_lem :
      (n f p : Bytes) (a : s.State) (src : FdhSource) (fs ps : List Stored)
      → IsCounted fs ps src
      → IsKeyed (fies_in fs) (pds_in ps)
      → (fill_fdhs s ch n f p (a, src)).0 ≡ none
      → s.table a n ≡ some []
      → s.table a f ≡ some fs
      → s.table a p ≡ some ps
      → (rows : List Stored) × (run.table (fill_fdhs s ch n f p (a, src)).1 n ≡ some rows)
        × SameItems rows (joined fs ps)
  unfolding fill_fdhs
  fill_fdhs_lem n f p a src fs ps (right, small) keyed h was has_fs has_ps =
      elim (Bool-cases (insert_fdhs_or_kill s ch n f p a).0) [
        | inr e ↦ absurd (ground arith)
        | inl e ↦
            let (good, same) = insert_or_kill_done n f p a e in
            let (after, left_out, at, part) =
              inserts.insert_part n f p a [] fs ps good was has_fs has_ps in
            let b = (insert_fdhs_or_kill s ch n f p a).1 in
            let here : s.table b n ≡ some after = ap (λ r. s.table r.1 n) same ∙ at in
            let counted =
              check_count_lem cannot_summarize (s.count n b).0 (expected_rows src) (rw e at h) in
            let size : expected_rows src ≡ length after =
              laws.count_right n b _ after counted here in
            let wanted : length (fdh_rows (fies_in fs) (pds_in ps)) + src.missing_pd
                ≡ src.near_fies =
              rw right (((length-fdh_rows (fies_in fs) (pds_in ps)).1).1 keyed) in
            let long : length after ≡ length (joined fs ps) =
              sym size
              ∙ expected_lem src _ small wanted
              ∙ sym (length-map fdh (fdh_rows (fies_in fs) (pds_in ps))) in
            rw e (
              after,
              laws.count_same n b n ∙ here,
              whole_part after left_out (joined fs ps) part long,
            )
      ]

  count_input_lem :
      (f p : Bytes) (a : run.State) (fs ps : List Stored)
      → (count_input s ch f p a).0 ≡ none
      → s.table a.0 f ≡ some fs
      → s.table a.0 p ≡ some ps
      → IsCounted fs ps (count_input s ch f p a).1.1
  unfolding count_input
  count_input_lem f p (a, src) fs ps h has_fs has_ps =
      elim (Option-cases (ch.count_source f p a).0) [
        | inl e ↦ absurd (cc (rw (count_input, e) at h))
        | inr (n, e) ↦ elim (Bool-cases (n.near_fies == n.missing_pd)) [
          | inl same ↦ absurd (cc (rw (count_input, e, same) at h))
          | inr differ ↦
              rw (count_input, e, differ) (inserts.source_right f p a n fs ps e has_fs has_ps)
        ]
      ]

  create_keeps_source : (n : Bytes) (a : run.State) → (create_table run n a).1.1 ≡ a.1
  unfolding create_table
  create_keeps_source n a = elim (Bool-cases (validate_table_name n)) [
    | inl e ↦ rw e refl
    | inr e ↦ rw e refl
  ]

  -- A preparation that ends well has counted the input tables.
  prepare_fdhs_lem :
      (n f p : Bytes) (a : run.State) (fs ps : List Stored)
      → (prepare_fdhs s ch f p n a).0 ≡ none
      → s.table a.0 f ≡ some fs
      → s.table a.0 p ≡ some ps
      → IsCounted fs ps (prepare_fdhs s ch f p n a).1.1
  unfolding prepare_fdhs lift
  prepare_fdhs_lem n f p a fs ps h has_fs has_ps =
      let first = lift s ch (check_fdh_input s ch f fdh_fie_columns) a in
      let b = first.1 in
      let second = lift s ch (check_fdh_input s ch p fdh_pd_columns) b in
      let c = second.1 in
      let third = count_input s ch f p c in
      let d = third.1 in
      let (ok1, same1) = and_then_succeeds first.0 b _ h in
      let (ok2, same2) = and_then_succeeds second.0 c _ (sym (ap (λ r. r.0) same1) ∙ h) in
      let (ok3, same3) = and_then_succeeds third.0 d _ (sym (ap (λ r. r.0) (same1 ∙ same2)) ∙ h) in
      let kept = λ (t : Bytes).
        input_same s laws ch reads p fdh_pd_columns b.0 t
        ∙ input_same s laws ch reads f fdh_fie_columns a.0 t in
      let counted = count_input_lem f p c fs ps ok3 (kept f ∙ has_fs) (kept p ∙ has_ps) in
      rw (same1 ∙ same2 ∙ same3) (rw (create_keeps_source n d) counted)

  module _ (user_set : Bool) (n f p : Bytes) (drop_on_fail : Bool) (a : run.State)
      (fs ps : List Stored) (has_fs : s.table a.0 f ≡ some fs) (has_ps : s.table a.0 p ≡ some ps)
      (keyed : IsKeyed (fies_in fs) (pds_in ps)) where
    -- What is in the table behind the run
    abbrev pub Holds : run.State → Type 0
    Holds b =
        (rows : List Stored) × (run.table b n ≡ some rows)
        × SameItems rows (map fdh (fdh_rows (fies_in fs) (pds_in ps)))

    compute_fdhs_lem :
        f ≢ n
        → p ≢ n
        → (compute_fdhs s ch user_set n f p drop_on_fail a).0 ≡ none
        → (run.table a n ≡ none) × Holds (compute_fdhs s ch user_set n f p drop_on_fail a).1
    unfolding compute_fdhs new_table
    compute_fdhs_lem f_ne p_ne h =
        let make = prepare_fdhs s ch f p in
        let r = open_table run user_set make false n a in
        let (created, opened, worked, same) =
          guarded_succeeds run run_laws n (λ created. drop_on_fail) (fill_fdhs s ch n f p) r.0 r.1
            h in
        let is_open =
          open_table-Opened run run_laws make (prepare_fdhs-IsCreate s laws ch reads f p) false
            user_set n a in
        let (absent, empty) = Opened-new run run_laws n a r.0 r.1 created is_open opened in
        let others = Opened-others run run_laws false n a r.0 r.1 is_open in
        let (c, tables, fine, left) =
          open_table_lem run run_laws make user_set n a created opened in
        let counted = prepare_fdhs_lem n f p c fs ps fine (tables f ∙ has_fs) (tables p ∙ has_ps) in
        let filled =
          fill_fdhs_lem n f p r.1.0 r.1.1 fs ps (rw left counted) keyed worked empty
            (others f f_ne ∙ has_fs) (others p p_ne ∙ has_ps) in
        (absent, rw same filled)

    not_same : (x : Bytes) → bytes_eq n x ≡ false → x ≢ n
    not_same x h e = cc (rw e at h, bytes_eq_refl n)

    checked_names : check_fdh_tables n f p ≡ none → (bytes_eq n f ≡ false) × (bytes_eq n p ≡ false)
    unfolding check_fdh_tables
    checked_names h = ground arith

    -- If `compute-fdhs` returns no error and is not a dry run, and no PD that a FIE with a near reply refers to
    -- stands in the PD table twice, then its table was not there before, and it holds, in some order, exactly the
    -- rows of the join: one for each FIE with a near reply and a PD with its ID. The input tables are `f` and
    -- `p`. The server is to add rows of the join only, and none too often; that all of them are there is what the
    -- count behind the insert makes sure of.
    pub run_compute_fdhs_succeeds :
        (run_compute_fdhs s ch user_set n f p drop_on_fail false a).0 ≡ none
        → (run.table a n ≡ none)
          × Holds (run_compute_fdhs s ch user_set n f p drop_on_fail false a).1
    unfolding run_compute_fdhs
    run_compute_fdhs_succeeds h =
        let (checked, same) =
          and_then_succeeds (check_fdh_tables n f p) a
            (λ b. compute_fdhs s ch user_set n f p drop_on_fail b) h in
        let (f_new, p_new) = checked_names checked in
        let (absent, holds) =
          compute_fdhs_lem (not_same f f_new) (not_same p p_new) (sym (ap (λ r. r.0) same) ∙ h) in
        (absent, rw same holds)
