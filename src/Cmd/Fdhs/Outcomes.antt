-- ===== src/Cmd/Fdhs/Outcomes.antt =====
-- What compute-fdhs does to the tables.
use fie_importer.Prelude.{
  ◌≡◌, refl, sym, ◌∙◌, ◌≢◌, inl, inr, Bool, false, none, some, List, [], ◌==◌, Bool-cases,
  Option-cases,
}
use fie_importer.Prelude.Bytes.{Bytes}
use fie_importer.Clickhouse.Fdhs.{Stored}
use fie_importer.Clickhouse.Server.{Server, IsServer, SameBut, SameTables}
use fie_importer.Cmd.Error.{Error, Failure, and_then}
use fie_importer.Cmd.Table.{open_table, new_table}
use fie_importer.Cmd.Table.Opened.{IsCreate, create_table-IsCreate, open_table-Opened}
use fie_importer.Cmd.Table.Guarded.{IsBody, Outcome, guarded-Outcome}
use fie_importer.Cmd.Fdhs.{
  FdhClient, fdh_fie_columns, fdh_pd_columns, check_fdh_input, lift, count_input, prepare_fdhs,
  insert_fdhs_or_kill, fill_fdhs, compute_fdhs,
}
use fie_importer.Cmd.Fdhs.Source.{with_source, with_source-IsServer}

-- What ClickHouse documents of these statements.
pub record IsFdhClient {s : Server Stored} (ch : FdhClient s) : Type 0 where
  pub columns_same : (t : Bytes) (a : s.State) → SameTables s a (ch.columns t a).1
  pub source_same : (f p : Bytes) (a : s.State) → SameTables s a (ch.count_source f p a).1
  pub kill_same : (a : s.State) → SameTables s a (ch.kill_query a)
  pub insert_others : (t f p : Bytes) (a : s.State) → SameBut s t a (ch.insert_fdhs t f p a).1
  pub insert_keeps :
      (t f p : Bytes) (a : s.State)
      → s.table a t ≢ none
      → s.table (ch.insert_fdhs t f p a).1 t ≢ none

-- A step that reads, or makes a table as `IsCreate` says.
record IsCreated {Row : Type 0} (w : Server Row) (n : Bytes) (a : w.State) (r : Failure × w.State)
    : Type 0 where
  pub made : r.0 ≡ none → (w.table a n ≡ none) × (w.table r.1 n ≡ some []) × SameBut w n a r.1
  pub refused : (e : Error) → r.0 ≡ some e → SameTables w a r.1

and_then-IsCreated :
    {Row : Type 0} (w : Server Row) (n : Bytes) (a : w.State) (first : Failure × w.State)
    (next : w.State → Failure × w.State)
    → SameTables w a first.1
    → ((b : w.State) → IsCreated w n b (next b))
    → IsCreated w n a (and_then first next)
unfolding and_then
and_then-IsCreated w n a (none, b) next same creates =
    let c = creates b in
    record {
      made = λ h.
          let (absent, empty, others) = c.made h in
          (sym (same n) ∙ absent, empty, λ other ne. others other ne ∙ same other);
      refused = λ e h other. c.refused e h other ∙ same other;
    }
and_then-IsCreated w n a (some e, b) next same creates = record {
  made = λ h. cc;
  refused = λ x h. same;
}

module _ (s : Server Stored) (laws : IsServer s) (ch : FdhClient s) (reads : IsFdhClient ch) where
  pub input_same :
      (t : Bytes) (want : List Bytes) (a : s.State)
      → SameTables s a (check_fdh_input s ch t want a).1
  unfolding check_fdh_input
  input_same t want a = elim (Option-cases (s.exists t a).0) [
    | inl e ↦ rw (check_fdh_input, e) (laws.exists_same t a)
    | inr (present, e) ↦ elim (Bool-cases present) [
      | inl there ↦
          rw (check_fdh_input, e, there)
            (λ other. reads.columns_same t (s.exists t a).1 other ∙ laws.exists_same t a other)
      | inr absent ↦ rw (check_fdh_input, e, absent) (laws.exists_same t a)
    ]
  ]

  abbrev pub w : Server Stored
  w = with_source s

  abbrev pub w_laws : IsServer w
  w_laws = with_source-IsServer s laws

  count_input_same : (f p : Bytes) (a : w.State) → SameTables w a (count_input s ch f p a).1
  unfolding count_input
  count_input_same f p (a, src) = elim (Option-cases (ch.count_source f p a).0) [
    | inl e ↦ rw (count_input, e) (reads.source_same f p a)
    | inr (n, e) ↦ elim (Bool-cases (n.near_fies == n.missing_pd)) [
      | inl same ↦ rw (count_input, e, same) (reads.source_same f p a)
      | inr differ ↦ rw (count_input, e, differ) (reads.source_same f p a)
    ]
  ]

  pub prepare_fdhs-IsCreate : (f p : Bytes) → IsCreate w w_laws (prepare_fdhs s ch f p)
  unfolding prepare_fdhs lift
  prepare_fdhs-IsCreate f p =
      let create = create_table-IsCreate w w_laws in
      let whole = λ (n : Bytes) (a : w.State).
        and_then-IsCreated w n a (lift s ch (check_fdh_input s ch f fdh_fie_columns) a) _
          (input_same f fdh_fie_columns a.0)
          (λ b.
            and_then-IsCreated w n b (lift s ch (check_fdh_input s ch p fdh_pd_columns) b) _
              (input_same p fdh_pd_columns b.0)
              (λ c.
                and_then-IsCreated w n c (count_input s ch f p c) _ (count_input_same f p c)
                  (λ d. record { made = create.made n d; refused = create.refused n d }))) in
      record { made = λ n a. (whole n a).made; refused = λ n a. (whole n a).refused }

  insert_or_kill_others :
      (n f p : Bytes) (a : s.State) → SameBut s n a (insert_fdhs_or_kill s ch n f p a).1
  unfolding insert_fdhs_or_kill
  insert_or_kill_others n f p a = elim (Bool-cases (ch.has_query_id a)) [
    | inr e ↦ rw e (λ other ne. refl)
    | inl e ↦ elim (Bool-cases (ch.insert_fdhs n f p a).0) [
      | inl done ↦ rw (e, done) (reads.insert_others n f p a)
      | inr failed ↦
          rw (e, failed)
            (λ other ne.
              reads.kill_same (ch.insert_fdhs n f p a).1 other
              ∙ reads.insert_others n f p a other ne)
    ]
  ]

  insert_or_kill_keeps :
      (n f p : Bytes) (a : s.State)
      → s.table a n ≢ none
      → s.table (insert_fdhs_or_kill s ch n f p a).1 n ≢ none
  unfolding insert_fdhs_or_kill
  insert_or_kill_keeps n f p a was = elim (Bool-cases (ch.has_query_id a)) [
    | inr e ↦ rw e was
    | inl e ↦ elim (Bool-cases (ch.insert_fdhs n f p a).0) [
      | inl done ↦ rw (e, done) (reads.insert_keeps n f p a was)
      | inr failed ↦
          rw (e, failed)
            (λ gone.
              reads.insert_keeps n f p a was
                (sym (reads.kill_same (ch.insert_fdhs n f p a).1 n) ∙ gone))
    ]
  ]

  fill_fdhs-IsBody : (n f p : Bytes) → IsBody w w_laws n (fill_fdhs s ch n f p)
  unfolding fill_fdhs
  fill_fdhs-IsBody n f p = record {
    others = λ a. elim (Bool-cases (insert_fdhs_or_kill s ch n f p a.0).0) [
      | inl e ↦ rw e (λ other ne.
          laws.count_same n (insert_fdhs_or_kill s ch n f p a.0).1 other
          ∙ insert_or_kill_others n f p a.0 other ne)
      | inr e ↦ rw e (insert_or_kill_others n f p a.0)
    ];
    keeps = λ a was. elim (Bool-cases (insert_fdhs_or_kill s ch n f p a.0).0) [
      | inl e ↦ rw e (λ gone.
          insert_or_kill_keeps n f p a.0 was
            (sym (laws.count_same n (insert_fdhs_or_kill s ch n f p a.0).1 n) ∙ gone))
      | inr e ↦ rw e (insert_or_kill_keeps n f p a.0 was)
    ];
  }

  module _ (user_set : Bool) (n f p : Bytes) (drop_on_fail : Bool) (a : w.State) where
    -- Whatever `computeFDHs` returns, it changed no other table; a table of that name that was there is as
    -- it was, and the command failed; and with --drop-on-fail a failure leaves no table, unless dropping
    -- it failed.
    pub compute_fdhs-Outcome :
        Outcome w w_laws n false
          (λ created. drop_on_fail)
          a
          (compute_fdhs s ch user_set n f p drop_on_fail a)
    unfolding compute_fdhs new_table
    compute_fdhs-Outcome =
        let r = open_table w user_set (prepare_fdhs s ch f p) false n a in
        guarded-Outcome w w_laws n (λ created. drop_on_fail) (fill_fdhs s ch n f p)
          (fill_fdhs-IsBody n f p) false a r.0 r.1
          (open_table-Opened w w_laws (prepare_fdhs s ch f p) (prepare_fdhs-IsCreate f p) false
            user_set n a)
