-- ===== src/Cmd/Transfer/Runs.antt =====
-- A finished run of the two goroutines is a transfer as the upload commands use it.
use fie_importer.Prelude.{
  ℕ, ◌≤◌, ◌≡◌, refl, sym, ap, ◌∙◌, ◌≢◌, Bool, true, none, some, List, ◌++◌, length,
}
use fie_importer.Prelude.Bytes.{Bytes}
use fie_importer.Clickhouse.Server.{Server, IsServer, SameBut}
use fie_importer.Cmd.Transfer.{
  Pipe, start, Step, read, flush, finish, flush_last, fail, stop, receive, insert, insert_fails,
  insert_stops, drained, interrupt, Reachable, here, there, IsOver, result, server, sent,
}
use fie_importer.Cmd.Transfer.Order.{transfer_result}
use fie_importer.Cmd.Transfer.Ends.{transfer_ends}
use fie_importer.Cmd.Upload.Outcomes.{IsTransfer}

module _ {Row : Type 0} (s : Server Row) (laws : IsServer s) (name : Bytes) (batch_size : ℕ)
    (fault : Bool) where
  open s use {State, table, send}

  step_others :
      (p r : Pipe s) → Step s name batch_size fault p r → SameBut s name (server s p) (server s r)
  step_others _ _ (read room) = λ other ne. refl
  step_others _ _ (flush full room) = λ other ne. refl
  step_others _ _ (finish good) = λ other ne. refl
  step_others _ _ (flush_last good part room) = λ other ne. refl
  step_others _ _ (fail bad part) = λ other ne. refl
  step_others _ _ stop = λ other ne. refl
  step_others _ _ receive = λ other ne. refl
  step_others _ _ (insert {p} {b} {q} {x} {a} {n} good) = laws.send_others name b a
  step_others _ _ (insert_fails {p} {b} {q} {x} {a} {n} bad) = laws.send_others name b a
  step_others _ _ insert_stops = λ other ne. refl
  step_others _ _ (drained closed) = λ other ne. refl
  step_others _ _ interrupt = λ other ne. refl

  step_keeps :
      (p r : Pipe s)
      → Step s name batch_size fault p r
      → table (server s p) name ≢ none
      → table (server s r) name ≢ none
  step_keeps _ _ (read room) h = h
  step_keeps _ _ (flush full room) h = h
  step_keeps _ _ (finish good) h = h
  step_keeps _ _ (flush_last good part room) h = h
  step_keeps _ _ (fail bad part) h = h
  step_keeps _ _ stop h = h
  step_keeps _ _ receive h = h
  step_keeps _ _ (insert {p} {b} {q} {x} {a} {n} good) h = laws.send_keeps name b a h
  step_keeps _ _ (insert_fails {p} {b} {q} {x} {a} {n} bad) h = laws.send_keeps name b a h
  step_keeps _ _ insert_stops h = h
  step_keeps _ _ (drained closed) h = h
  step_keeps _ _ interrupt h = h

  Reachable-others :
      (p r : Pipe s)
      → Reachable s name batch_size fault p r
      → SameBut s name (server s p) (server s r)
  Reachable-others p _ here = λ other ne. refl
  Reachable-others p _ (there {q} {r} run step) =
      λ other ne. step_others q r step other ne ∙ Reachable-others p q run other ne

  Reachable-keeps :
      (p r : Pipe s)
      → Reachable s name batch_size fault p r
      → table (server s p) name ≢ none
      → table (server s r) name ≢ none
  Reachable-keeps p _ here h = h
  Reachable-keeps p _ (there {q} {r} run step) h = step_keeps q r step (Reachable-keeps p q run h)

  -- What a finished run comes to: its result and the rows that were sent, and the server.
  abbrev outcome : Pipe s → (Bool × ℕ) × State
  outcome p = ((result s p, sent s p), server s p)

  -- A function that does what some finished run does.
  abbrev pub IsRun : List Row → (State → (Bool × ℕ) × State) → Type 0
  IsRun rows f =
      (a : State)
      → (p : Pipe s) × Reachable s name batch_size fault (start s rows a) p
        × IsOver s p
        × (f a ≡ outcome p)

  start_server : (rows : List Row) (a : State) → server s (start s rows a) ≡ a
  unfolding start
  start_server rows a = refl

  module _ (rows : List Row) (f : State → (Bool × ℕ) × State) (runs : IsRun rows f) where
    run_others : (a : State) → SameBut s name a (f a).1
    run_others a other ne =
        let (p, run, over, same) = runs a in
        ap (λ r. table r.1 other) same
        ∙ Reachable-others (start s rows a) p run other ne
        ∙ ap (λ b. table b other) (start_server rows a)

    run_keeps : (a : State) → table a name ≢ none → table (f a).1 name ≢ none
    run_keeps a was gone =
        let (p, run, over, same) = runs a in
        Reachable-keeps (start s rows a) p run
          (λ none_yet. was (sym (ap (λ b. table b name) (start_server rows a)) ∙ none_yet))
          (sym (ap (λ r. table r.1 name) same) ∙ gone)

    run_sent :
        (a : State) (before : List Row)
        → (f a).0.0 ≡ true
        → table a name ≡ some before
        → (table (f a).1 name ≡ some (before ++ rows)) × ((f a).0.1 ≡ length rows)
    run_sent a before good first =
        let (p, run, over, same) = runs a in
        let (holds, count) =
          transfer_result s laws name rows a before batch_size fault p first run
            (sym (ap (λ r. r.0.0) same) ∙ good) in
        (ap (λ r. table r.1 name) same ∙ holds, ap (λ r. r.0.1) same ∙ count)

    -- The transfer of `upload-pds`
    pub run-IsTransfer : IsTransfer s laws name (λ r. r.0) rows f
    run-IsTransfer = record {
      others = run_others;
      keeps = run_keeps;
      sent = λ a before good first. (run_sent a before good first).0;
    }

    -- The transfer of `upload-fies`, which does not return the number of rows
    pub run-IsTransfer_fies : IsTransfer s laws name (λ b. b) rows (λ a. ((f a).0.0, (f a).1))
    run-IsTransfer_fies = record {
      others = run_others;
      keeps = run_keeps;
      sent = λ a before good first. (run_sent a before good first).0;
    }

  -- The run that `transfer_ends` finds, as a function.
  unfoldable pub some_run : 1 ≤ batch_size → List Row → State → (Bool × ℕ) × State
  some_run positive rows a =
      outcome (transfer_ends s name batch_size fault positive rows a (start s rows a) here).0

  pub some_run-IsRun :
      (positive : 1 ≤ batch_size) (rows : List Row) → IsRun rows (some_run positive rows)
  unfolding some_run
  some_run-IsRun positive rows a =
      let (p, run, over) =
        transfer_ends s name batch_size fault positive rows a (start s rows a) here in
      (p, run, over, refl)
