-- ===== src/Cmd/Table/Guarded.antt =====
-- What the commands leave behind when they fail.
use fie_importer.Prelude.{
  ◌≡◌, refl, sym, ap, ◌∙◌, ◌≢◌, ◌⊎◌, inl, inr, Bool, true, false, none, some, arith, Bool-cases,
}
use fie_importer.Prelude.Bytes.{Bytes}
use fie_importer.Clickhouse.Names.{validate_table_name}
use fie_importer.Clickhouse.Server.{Server, IsServer, SameBut, SameTables}
use fie_importer.Cmd.Error.{Error, Failure, Result, ok, err, drop_failed}
use fie_importer.Cmd.Table.{drop_table, drop_on_failure, guarded}
use fie_importer.Cmd.Table.Opened.{Opened, made, kept, failed}

module _ {Row : Type 0} (s : Server Row) (laws : IsServer s) (name : Bytes) where
  open s use {State, table}

  -- A command's work on its table: it leaves the other tables alone, and the table is there after it.
  pub record IsBody (body : State → Failure × State) : Type 0 where
    pub others : (a : State) → SameBut s name a (body a).1
    pub keeps : (a : State) → table a name ≢ none → table (body a).1 name ≢ none

  abbrev pub IsDropFailure : Error → Type 0
  IsDropFailure e = (cause : Error) × (e ≡ drop_failed cause)

  -- What a run of a command may do: `append_ok` is whether it may use a table that is there, and
  -- `wanted` whether it drops the table if it fails.
  pub record Outcome (append_ok : Bool) (wanted : Bool → Bool) (a : State) (r : Failure × State)
      : Type 0 where
    -- No other table changes.
    pub others : SameBut s name a r.1
    -- A table that was there is left as it was, and the command fails.
    pub refuses : append_ok ≡ false → table a name ≢ none → SameTables s a r.1 × (r.0 ≢ none)
    -- A table that was there is never dropped.
    pub keeps : wanted false ≡ false → table a name ≢ none → table r.1 name ≢ none
    -- After a failure there is no table where there was none, unless dropping it failed too.
    pub cleans :
        (e : Error)
        → r.0 ≡ some e
        → wanted true ≡ true
        → table a name ≡ none
        → (table r.1 name ≡ none) ⊎ IsDropFailure e

  drop_table_others : (a : State) → SameBut s name a (drop_table s name a).1
  unfolding drop_table
  drop_table_others a = elim (Bool-cases (validate_table_name name)) [
    | inl e ↦ rw e (laws.drop_others name a)
    | inr e ↦ rw e (λ other ne. refl)
  ]

  drop_table_done :
      (a : State) → (drop_table s name a).0 ≡ true → table (drop_table s name a).1 name ≡ none
  unfolding drop_table
  drop_table_done a h = elim (Bool-cases (validate_table_name name)) [
    | inl e ↦ rw e (laws.drop_ok name a (rw e at h))
    | inr e ↦ absurd (ground arith)
  ]

  drop_others :
      (wanted : Bool) (failure : Failure) (a : State)
      → SameBut s name a (drop_on_failure s name wanted (failure, a)).1
  unfolding drop_on_failure
  drop_others wanted none a = λ other ne. refl
  drop_others true (some e) a = drop_table_others a
  drop_others false (some e) a = λ other ne. refl

  drop_keeps :
      (failure : Failure) (a : State)
      → table a name ≢ none
      → table (drop_on_failure s name false (failure, a)).1 name ≢ none
  unfolding drop_on_failure
  drop_keeps none a h = h
  drop_keeps (some e) a h = h

  drop_cleans :
      (failure : Failure) (a : State) (e : Error)
      → (drop_on_failure s name true (failure, a)).0 ≡ some e
      → (table (drop_on_failure s name true (failure, a)).1 name ≡ none) ⊎ IsDropFailure e
  unfolding drop_on_failure
  drop_cleans none a e h = cc
  drop_cleans (some x) a e h = elim (Bool-cases (drop_table s name a).0) [
    | inl done ↦ inl (drop_table_done a done)
    | inr not_done ↦ inr (x, ground arith)
  ]

  module _ (wanted : Bool → Bool) (body : State → Failure × State) (work : IsBody body)
      (append_ok : Bool) (a : State) where
    guarded_failed :
        (e : Error) (b : State)
        → SameTables s a b
        → Outcome append_ok wanted a (guarded s name wanted body (err e, b))
    unfolding guarded
    guarded_failed e b same = record {
      others = λ other ne. same other;
      refuses = λ new there. (same, λ h. cc);
      keeps = λ unwanted there gone. there (sym (same name) ∙ gone);
      cleans = λ x h on absent. inl (same name ∙ absent);
    }

    guarded_made :
        (b : State)
        → table a name ≡ none
        → SameBut s name a b
        → Outcome append_ok wanted a (guarded s name wanted body (ok true, b))
    unfolding guarded
    guarded_made b absent same =
        let r = body b in
        record {
          others = λ other ne.
              drop_others (wanted true) r.0 r.1 other ne ∙ work.others b other ne ∙ same other ne;
          refuses = λ new there. absurd (there absent);
          keeps = λ unwanted there. absurd (there absent);
          cleans = λ x h on absent'. rw on (drop_cleans r.0 r.1 x (rw on at h));
        }

    guarded_kept :
        (b : State)
        → append_ok ≡ true
        → table a name ≢ none
        → SameTables s a b
        → Outcome append_ok wanted a (guarded s name wanted body (ok false, b))
    unfolding guarded
    guarded_kept b allowed there same =
        let r = body b in
        record {
          others = λ other ne.
              drop_others (wanted false) r.0 r.1 other ne ∙ work.others b other ne ∙ same other;
          refuses = λ new there'. absurd (ground (arith, allowed, new));
          keeps = λ unwanted there'.
              rw unwanted
                (drop_keeps r.0 r.1 (work.keeps b (λ gone. there (sym (same name) ∙ gone))));
          cleans = λ x h on absent. absurd (there absent);
        }

    -- Whatever the opening came to, the run has this outcome.
    pub guarded-Outcome :
        (r : Result Bool) (b : State)
        → Opened s laws append_ok name a r b
        → Outcome append_ok wanted a (guarded s name wanted body (r, b))
    guarded-Outcome _ _ (failed {b} {e} same) = guarded_failed e b same
    guarded-Outcome _ _ (made {b} absent empty others) = guarded_made b absent others
    guarded-Outcome _ _ (kept {b} allowed there same) = guarded_kept b allowed there same

  drop_succeeds :
      (wanted : Bool) (failure : Failure) (a : State)
      → (drop_on_failure s name wanted (failure, a)).0 ≡ none
      → (failure ≡ none) × (drop_on_failure s name wanted (failure, a) ≡ (none, a))
  unfolding drop_on_failure
  drop_succeeds wanted none a h = (refl, refl)
  drop_succeeds true (some e) a h = cc
  drop_succeeds false (some e) a h = cc

  -- A run that succeeds opened the table, and its work succeeded and left the tables so.
  pub guarded_succeeds :
      (wanted : Bool → Bool) (body : State → Failure × State) (r : Result Bool) (b : State)
      → (guarded s name wanted body (r, b)).0 ≡ none
      → (created : Bool) × (r ≡ ok created)
        × ((body b).0 ≡ none)
        × ((guarded s name wanted body (r, b)).1 ≡ (body b).1)
  unfolding guarded
  guarded_succeeds wanted body (err e) b h = cc
  guarded_succeeds wanted body (ok created) b h =
      let (none_failed, same) = drop_succeeds (wanted created) (body b).0 (body b).1 h in
      (created, refl, none_failed, ap (λ p. p.1) same)
