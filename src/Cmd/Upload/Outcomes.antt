-- ===== src/Cmd/Upload/Outcomes.antt =====
-- What the upload commands do to the tables, failing or not.
use fie_importer.Prelude.{
  ℕ, ◌≡◌, sym, ap, ◌∙◌, ◌≢◌, inl, inr, Bool, true, false, ◌&&◌, Option, none, some, List, [], ◌++◌,
  arith, ◌==◌, Bool-cases, length,
}
use fie_importer.Prelude.Bytes.{Bytes}
use fie_importer.Clickhouse.Server.{Server, IsServer, SameBut, SameTables}
use fie_importer.Cmd.Error.{Error, cannot_summarize}
use fie_importer.Cmd.Table.{create_table, new_table, open_table}
use fie_importer.Cmd.Table.Opened.{Opened-new, create_table-IsCreate, open_table-Opened}
use fie_importer.Cmd.Table.Guarded.{IsBody, Outcome, guarded-Outcome, guarded_succeeds}
use fie_importer.Cmd.Upload.{
  check_count, fill_fies, upload, fill_pds, upload_pds, fill_agents, upload_agents,
}

check_count-none :
    (failure : Error) (rows : Option ℕ) (sent : ℕ)
    → check_count failure rows sent ≡ none
    → rows ≡ some sent
unfolding check_count
check_count-none failure none sent h = cc
check_count-none failure (some n) sent h = ground arith

module _ {Row : Type 0} (s : Server Row) (laws : IsServer s) (name : Bytes) where
  open s use {State, table}

  -- A transfer of rows: it leaves the other tables alone and keeps the table, and when it succeeds the
  -- rows stand behind those that were in the table.
  pub record IsTransfer {T : Type 0} (done : T → Bool) (rows : List Row)
      (transfer : State → T × State) : Type 0 where
    pub others : (a : State) → SameBut s name a (transfer a).1
    pub keeps : (a : State) → table a name ≢ none → table (transfer a).1 name ≢ none
    pub sent :
        (a : State) (before : List Row)
        → done (transfer a).0 ≡ true
        → table a name ≡ some before
        → table (transfer a).1 name ≡ some (before ++ rows)

  -- The states behind a transfer, and behind a statement that changes no table.
  module _ {T : Type 0} {done : T → Bool} {rows : List Row} {transfer : State → T × State}
      (moves : IsTransfer done rows transfer) where
    counted_others : (a : State) → SameBut s name a (s.count name (transfer a).1).1
    counted_others a =
        λ other ne. laws.count_same name (transfer a).1 other ∙ moves.others a other ne

    counted_keeps :
        (a : State) → table a name ≢ none → table (s.count name (transfer a).1).1 name ≢ none
    counted_keeps a there gone =
        moves.keeps a there (sym (laws.count_same name (transfer a).1 name) ∙ gone)

    -- A count that follows a whole transfer is the number of rows.
    counted_right :
        (a : State) (before : List Row) (n : ℕ)
        → done (transfer a).0 ≡ true
        → table a name ≡ some before
        → (s.count name (transfer a).1).0 ≡ some n
        → n ≡ length (before ++ rows)
    counted_right a before n sent there e =
        laws.count_right name (transfer a).1 n (before ++ rows) e (moves.sent a before sent there)

    counted_table :
        (a : State) (before : List Row)
        → done (transfer a).0 ≡ true
        → table a name ≡ some before
        → table (s.count name (transfer a).1).1 name ≡ some (before ++ rows)
    counted_table a before sent there =
        laws.count_same name (transfer a).1 name ∙ moves.sent a before sent there

module _ {Row : Type 0} (s : Server Row) (laws : IsServer s) (user_set : Bool) (name : Bytes) where
  open s use {State, table}

  module _ {rows : List Row} {transfer : State → Bool × State}
      (moves : IsTransfer s laws name (λ b. b) rows transfer) (total : ℕ) where
    fill_fies-IsBody : IsBody s laws name (fill_fies s user_set name transfer total)
    unfolding fill_fies
    fill_fies-IsBody = record {
      others = λ a. elim (Bool-cases (transfer a).0) [
        | inl e ↦ rw e (counted_others s laws name moves a)
        | inr e ↦ rw e (moves.others a)
      ];
      keeps = λ a there. elim (Bool-cases (transfer a).0) [
        | inl e ↦ rw e (counted_keeps s laws name moves a there)
        | inr e ↦ rw e (moves.keeps a there)
      ];
    }

    fill_fies_succeeds :
        (a : State) (before : List Row)
        → (fill_fies s user_set name transfer total a).0 ≡ none
        → table a name ≡ some before
        → (total ≡ length (before ++ rows))
          × (table (fill_fies s user_set name transfer total a).1 name ≡ some (before ++ rows))
    unfolding fill_fies
    fill_fies_succeeds a before h there = elim (Bool-cases (transfer a).0) [
      | inr e ↦ absurd (ground arith)
      | inl e ↦ rw e (
        counted_right s laws name moves a before total e there
            (check_count-none cannot_summarize (s.count name (transfer a).1).0 total (rw e at h)),
        counted_table s laws name moves a before e there,
      )
    ]

    -- Whatever `upload` returns, it changed no other table; a table that was there is as it was, and
    -- the command failed; and with --drop-on-fail a failure leaves no table, unless dropping it failed.
    pub upload-Outcome :
        (drop_on_fail : Bool) (a : State)
        → Outcome s laws name false
            (λ created. drop_on_fail)
            a
            (upload s user_set name transfer total drop_on_fail a)
    unfolding upload new_table
    upload-Outcome drop_on_fail a =
        let r = open_table s user_set (create_table s) false name a in
        guarded-Outcome s laws name (λ created. drop_on_fail)
          (fill_fies s user_set name transfer total) fill_fies-IsBody false a r.0 r.1
          (open_table-Opened s laws (create_table s) (create_table-IsCreate s laws) false user_set
            name a)

    -- If `upload` returns no error then the table was not there, and it holds exactly the rows that the
    -- transfer read, as many as the total that was announced.
    pub upload_succeeds :
        (drop_on_fail : Bool) (a : State)
        → (upload s user_set name transfer total drop_on_fail a).0 ≡ none
        → (table a name ≡ none)
          × (total ≡ length rows)
          × (table (upload s user_set name transfer total drop_on_fail a).1 name ≡ some rows)
    unfolding upload new_table
    upload_succeeds drop_on_fail a h =
        let r = open_table s user_set (create_table s) false name a in
        let (created, opened, worked, same) =
          guarded_succeeds s laws name (λ created. drop_on_fail)
            (fill_fies s user_set name transfer total) r.0 r.1 h in
        let (absent, empty) =
          Opened-new s laws name a r.0 r.1 created
            (open_table-Opened s laws (create_table s) (create_table-IsCreate s laws) false user_set
              name a)
            opened in
        let (counted, holds) = fill_fies_succeeds r.1 [] worked empty in
        (absent, counted, ap (λ b. table b name) same ∙ holds)

  module _ {sent_rows : List Row} {transfer : State → (Bool × ℕ) × State}
      (moves : IsTransfer s laws name (λ r. r.0) sent_rows transfer) where
    fill_pds-IsBody : IsBody s laws name (fill_pds s user_set name transfer)
    unfolding fill_pds
    fill_pds-IsBody = record {
      others = λ a. elim (Bool-cases (transfer a).0.0) [
        | inl e ↦ elim (Bool-cases ((transfer a).0.1 == 0)) [
          | inl f ↦ rw (e, f) (moves.others a)
          | inr f ↦ rw (e, f) (counted_others s laws name moves a)
        ]
        | inr e ↦ rw e (moves.others a)
      ];
      keeps = λ a there. elim (Bool-cases (transfer a).0.0) [
        | inl e ↦ elim (Bool-cases ((transfer a).0.1 == 0)) [
          | inl f ↦ rw (e, f) (moves.keeps a there)
          | inr f ↦ rw (e, f) (counted_keeps s laws name moves a there)
        ]
        | inr e ↦ rw e (moves.keeps a there)
      ];
    }

    fill_pds_succeeds :
        (a : State) (before : List Row)
        → (fill_pds s user_set name transfer a).0 ≡ none
        → table a name ≡ some before
        → ((transfer a).0.1 ≢ 0)
          × ((transfer a).0.1 ≡ length (before ++ sent_rows))
          × (table (fill_pds s user_set name transfer a).1 name ≡ some (before ++ sent_rows))
    unfolding fill_pds
    fill_pds_succeeds a before h there = elim (Bool-cases (transfer a).0.0) [
      | inr e ↦ absurd (ground arith)
      | inl e ↦ elim (Bool-cases ((transfer a).0.1 == 0)) [
        | inl f ↦ absurd (ground arith)
        | inr f ↦
            rw (e, f)
              (
                (ground arith),
                counted_right s laws name moves a before (transfer a).0.1 e there (
                    check_count-none cannot_summarize (s.count name (transfer a).1).0
                      (transfer a).0.1 (rw (e, f) at h)),
                counted_table s laws name moves a before e there,
              )
      ]
    ]

    -- Whatever `upload-pds` returns behind its checks, it changed no other table; a table that was there
    -- is as it was, and the command failed; and with --drop-on-fail a failure leaves no table, unless
    -- dropping it failed.
    pub upload_pds-Outcome :
        (drop_on_fail : Bool) (a : State)
        → Outcome s laws name false
            (λ created. drop_on_fail)
            a
            (upload_pds s user_set name transfer drop_on_fail a)
    unfolding upload_pds new_table
    upload_pds-Outcome drop_on_fail a =
        let r = open_table s user_set (create_table s) false name a in
        guarded-Outcome s laws name (λ created. drop_on_fail) (fill_pds s user_set name transfer)
          fill_pds-IsBody false a r.0 r.1
          (open_table-Opened s laws (create_table s) (create_table-IsCreate s laws) false user_set
            name a)

    -- If `upload-pds` returns no error then the table was not there, and it holds exactly the rows of the
    -- transfer, at least one.
    pub upload_pds_succeeds :
        (drop_on_fail : Bool) (a : State)
        → (upload_pds s user_set name transfer drop_on_fail a).0 ≡ none
        → (table a name ≡ none)
          × (sent_rows ≢ [])
          × (table (upload_pds s user_set name transfer drop_on_fail a).1 name ≡ some sent_rows)
    unfolding upload_pds new_table
    upload_pds_succeeds drop_on_fail a h =
        let r = open_table s user_set (create_table s) false name a in
        let (created, opened, worked, same) =
          guarded_succeeds s laws name (λ created. drop_on_fail) (fill_pds s user_set name transfer)
            r.0 r.1 h in
        let (absent, empty) =
          Opened-new s laws name a r.0 r.1 created
            (open_table-Opened s laws (create_table s) (create_table-IsCreate s laws) false user_set
              name a)
            opened in
        let (some_sent, counted, holds) = fill_pds_succeeds r.1 [] worked empty in
        (
          absent,
          (λ nothing. some_sent (counted ∙ ap length nothing)),
          ap (λ b. table b name) same ∙ holds,
        )

  module _ (count_snapshot : State → Option ℕ × State)
      (only_counts : (a : State) → SameTables s a (count_snapshot a).1) (snapshot : List Row) where
    fill_agents_others :
        (a : State) → SameBut s name a (fill_agents s user_set name count_snapshot snapshot a).1
    unfolding fill_agents
    fill_agents_others a = elim (Bool-cases (s.send name snapshot a).0) [
      | inl e ↦ rw e (λ other ne.
          only_counts (s.send name snapshot a).1 other ∙ laws.send_others name snapshot a other ne)
      | inr e ↦ rw e (laws.send_others name snapshot a)
    ]

    fill_agents_keeps :
        (a : State)
        → table a name ≢ none
        → table (fill_agents s user_set name count_snapshot snapshot a).1 name ≢ none
    unfolding fill_agents
    fill_agents_keeps a there = elim (Bool-cases (s.send name snapshot a).0) [
      | inl e ↦ rw e (λ gone.
          laws.send_keeps name snapshot a there
            (sym (only_counts (s.send name snapshot a).1 name) ∙ gone))
      | inr e ↦ rw e (laws.send_keeps name snapshot a there)
    ]

    fill_agents_succeeds :
        (a : State) (before : List Row)
        → (fill_agents s user_set name count_snapshot snapshot a).0 ≡ none
        → table a name ≡ some before
        → table (fill_agents s user_set name count_snapshot snapshot a).1 name
          ≡ some (before ++ snapshot)
    unfolding fill_agents
    fill_agents_succeeds a before h there = elim (Bool-cases (s.send name snapshot a).0) [
      | inr e ↦ absurd (ground arith)
      | inl e ↦ rw e (
          only_counts (s.send name snapshot a).1 name ∙ laws.send_ok name snapshot a before e there)
    ]

    -- Whatever `upload-agents` returns behind the request to the orchestrator, it changed no other table;
    -- without --append a table that was there is as it was, and the command failed; a table that was
    -- there is never dropped; and with --drop-on-fail a failure leaves no table where there was none,
    -- unless dropping it failed.
    pub upload_agents-Outcome :
        (append_rows drop_on_fail : Bool) (a : State)
        → Outcome s laws name append_rows
            (λ created. created && drop_on_fail)
            a
            (upload_agents s user_set name count_snapshot snapshot append_rows drop_on_fail a)
    unfolding upload_agents
    upload_agents-Outcome append_rows drop_on_fail a =
        let r = open_table s user_set (create_table s) append_rows name a in
        guarded-Outcome s laws name (λ created. created && drop_on_fail)
          (fill_agents s user_set name count_snapshot snapshot)
          (record { others = fill_agents_others; keeps = fill_agents_keeps }) append_rows a r.0 r.1
          (open_table-Opened s laws (create_table s) (create_table-IsCreate s laws) append_rows
            user_set name a)
