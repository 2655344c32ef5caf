-- ===== src/Cmd/Table/Opened.antt =====
-- What opening a table does to the server's tables.
use fie_importer.Prelude.{
  ◌≡◌, refl, sym, ◌∙◌, ◌≢◌, inl, inr, Bool, true, false, Option, none, some, [], arith, Bool-cases,
}
use fie_importer.Prelude.Bytes.{Bytes}
use fie_importer.Clickhouse.Server.{Server, IsServer, SameBut, SameTables}
use fie_importer.Clickhouse.Names.{validate_table_name}
use fie_importer.Cmd.Error.{Error, Failure, Result, ok, err}
use fie_importer.Cmd.Table.{create_table, open_existing, open_table}

module _ {Row : Type 0} (s : Server Row) (laws : IsServer s) where
  open s use {State, table}

  -- A create function that fails with the tables as they were, and that makes an empty table
  -- where there was none.
  pub record IsCreate (make : Bytes → State → Failure × State) : Type 0 where
    pub made :
        (n : Bytes) (a : State)
        → (make n a).0 ≡ none
        → (table a n ≡ none) × (table (make n a).1 n ≡ some []) × SameBut s n a (make n a).1
    pub refused :
        (n : Bytes) (a : State) (e : Error) → (make n a).0 ≡ some e → SameTables s a (make n a).1

  create_made :
      (n : Bytes) (a : State)
      → (create_table s n a).0 ≡ none
      → (table a n ≡ none)
        × (table (create_table s n a).1 n ≡ some [])
        × SameBut s n a (create_table s n a).1
  unfolding create_table
  create_made n a h = elim (Bool-cases (validate_table_name n)) [
    | inr bad ↦ cc (rw bad at h)
    | inl good ↦ elim (Bool-cases (s.create n a).0) [
      | inl done ↦
          let (absent, empty) = laws.create_ok n a done in
          rw good (absent, empty, laws.create_others n a)
      | inr failed ↦ absurd (ground arith)
    ]
  ]

  create_refused :
      (n : Bytes) (a : State) (e : Error)
      → (create_table s n a).0 ≡ some e
      → SameTables s a (create_table s n a).1
  unfolding create_table
  create_refused n a e h = elim (Bool-cases (validate_table_name n)) [
    | inr bad ↦ rw bad (λ other. refl)
    | inl good ↦ elim (Bool-cases (s.create n a).0) [
      | inl done ↦ absurd (ground arith)
      | inr failed ↦ rw good (laws.create_failed n a failed)
    ]
  ]

  -- `createTable` makes an empty table where there was none, or fails and changes no table.
  pub create_table-IsCreate : IsCreate (create_table s)
  create_table-IsCreate = record { made = create_made; refused = create_refused }

  -- What opening a table comes to.
  pub data Opened (append_ok : Bool) (n : Bytes) (a : State) : Result Bool → State → Type 0 where
    made :
        {b : State}
        → table a n ≡ none
        → table b n ≡ some []
        → SameBut s n a b
        → Opened append_ok n a (ok true) b
    kept :
        {b : State}
        → append_ok ≡ true
        → table a n ≢ none
        → SameTables s a b
        → Opened append_ok n a (ok false) b
    failed : {b : State} {e : Error} → SameTables s a b → Opened append_ok n a (err e) b

  trans_same : {a b c : State} → SameTables s a b → SameTables s b c → SameTables s a c
  trans_same h k other = k other ∙ h other

  Opened-made :
      (append_ok : Bool) (n : Bytes) (a b c : State) (failure : Failure)
      → SameTables s a b
      → (failure ≡ none → (table b n ≡ none) × (table c n ≡ some []) × SameBut s n b c)
      → ((e : Error) → failure ≡ some e → SameTables s b c)
      → Opened append_ok n a (elim failure [ none ↦ ok true | some e ↦ err e ]) c
  Opened-made append_ok n a b c none h yes_made not_made =
      let (absent, empty, others) = yes_made refl in
      made (sym (h n) ∙ absent) empty (λ other ne. others other ne ∙ h other)
  Opened-made append_ok n a b c (some e) h yes_made not_made =
      failed (trans_same h (not_made e refl))

  module _ (make : Bytes → State → Failure × State) (creates : IsCreate make)
      (append_ok : Bool) where
    open_existing-Opened :
        (n : Bytes) (a b : State) (there : Option Bool)
        → SameTables s a b
        → (there ≡ some true → table a n ≢ none)
        → Opened append_ok n a
            (open_existing s there make append_ok n b).0
            (open_existing s there make append_ok n b).1
    unfolding open_existing
    open_existing-Opened n a b none same yes_there = failed same
    open_existing-Opened n a b (some true) same yes_there = elim (Bool-cases append_ok) [
      | inl e ↦ rw e (kept refl (yes_there refl) same)
      | inr e ↦ rw e (failed same)
    ]
    open_existing-Opened n a b (some false) same yes_there =
        Opened-made append_ok n a b (make n b).1 (make n b).0 same (creates.made n b)
          (creates.refused n b)

    -- Opening a table makes it empty where it was not there, or keeps one that was there where that
    -- is allowed, or fails with every table as it was; it changes no other table.
    pub open_table-Opened :
        (user_set : Bool) (n : Bytes) (a : State)
        → Opened append_ok n a
            (open_table s user_set make append_ok n a).0
            (open_table s user_set make append_ok n a).1
    unfolding open_table
    open_table-Opened user_set n a = elim (Bool-cases user_set) [
      | inr unset ↦ rw unset (failed (λ other. refl))
      | inl isset ↦ elim (Bool-cases (s.connect a).0) [
        | inr off ↦ rw (isset, off) (failed (laws.connect_same a))
        | inl on ↦
            let b = (s.connect a).1 in
            let same = trans_same (laws.connect_same a) (laws.exists_same n b) in
            rw (isset, on)
              (open_existing-Opened n a (s.exists n b).1 (s.exists n b).0 same
                (λ e absent. laws.exists_yes n b e (laws.connect_same a n ∙ absent)))
      ]
    ]

  -- A table that was opened where it had to be new is new, and empty.
  pub Opened-new :
      (n : Bytes) (a : State) (r : Result Bool) (b : State) (created : Bool)
      → Opened false n a r b
      → r ≡ ok created
      → (table a n ≡ none) × (table b n ≡ some [])
  Opened-new n a _ _ created (made absent empty others) e = (absent, empty)
  Opened-new n a _ _ created (kept allowed there same) e = absurd (cc)
  Opened-new n a _ _ created (failed same) e = absurd (cc)

  pub Opened-others :
      (append_ok : Bool) (n : Bytes) (a : State) (r : Result Bool) (b : State)
      → Opened append_ok n a r b
      → SameBut s n a b
  Opened-others append_ok n a _ _ (made absent empty others) = others
  Opened-others append_ok n a _ _ (kept allowed there same) = λ other ne. same other
  Opened-others append_ok n a _ _ (failed same) = λ other ne. same other
