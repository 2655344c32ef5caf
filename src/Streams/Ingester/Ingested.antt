-- ===== src/Streams/Ingester/Ingested.antt =====
-- What an ingestion leaves in the table.
use fie_importer.Prelude.{
  ℕ, zero, suc, ◌≤◌, ◌≡◌, refl, sym, ap, ◌∙◌, inl, inr, Bool, true, false, Option, none, some, List,
  [], ◌∷◌, ◌++◌, map, append_assoc, append-nil, arith, Bool-cases, Option-cases, replicate, All, ℤ,
  pos_part,
}
use fie_importer.Prelude.Bytes.{Bytes}
use fie_importer.Prelude.Bag.{total, total-append, SameItems}
use fie_importer.Clickhouse.Names.{validate_table_name}
use fie_importer.Clickhouse.Server.{Server, IsServer}
use fie_importer.Streams.BatchWriter.{Writer, new_batch_writer}
use fie_importer.Streams.Parallel.{
  Group, start, Reachable, IsOver, result, calls, state, check_start,
}
use fie_importer.Streams.Parallel.Workers.{parallel_for_each_result}
use fie_importer.Streams.Ingester.{
  Config, IngestError, Shared, parallel_func, flush_all, flushed, and_flush, checked_parallel,
  ingest,
}
use fie_importer.Streams.Items.{values, errors}
use fie_importer.Streams.Ingester.Rows.{
  all_pending, IsOurs, HasRows, Runs-HasRows, flush_all-AreSent,
}

module _ {T Row : Type 0} (s : Server Row) (row_of : T → Row) (prepare : s.State → Bool)
    (accepts : Row → Bool) where
  open s use {State, table}

  abbrev SharedState : Type 0
  SharedState = Shared s row_of prepare accepts

  abbrev func : ℕ → Option T → SharedState → Bool × SharedState
  func = parallel_func s row_of prepare accepts

  -- The outcome is what some schedule of the goroutines of `ParallelForEach2` leads to.
  abbrev pub IsParallelRun : ℕ → ℕ → List (Option T) → SharedState → Bool × SharedState → Type 0
  IsParallelRun n k stream from outcome =
      (g : Group func) × Reachable func k (start func n stream from) g
      × IsOver func g
      × (outcome ≡ (result func g, state func g))

  module _ (laws : IsServer s) (name : Bytes) where
    new_writers-pending :
        (n : ℕ) (size : ℤ) → all_pending {Row = Row} (replicate n (new_batch_writer name size)) ≡ []
    unfolding new_batch_writer
    new_writers-pending zero size = refl
    new_writers-pending (suc n) size = new_writers-pending n size

    new_writers-IsOurs :
        (n : ℕ) (size : ℤ)
        → All (IsOurs {Row = Row} name) (replicate n (new_batch_writer name size))
    unfolding new_batch_writer
    new_writers-IsOurs zero size = tt
    new_writers-IsOurs (suc n) size = ((refl, refl), new_writers-IsOurs n size)

    new_writers-HasRows :
        (n : ℕ) (size : ℤ) (before : List Row) (a : State)
        → table a name ≡ some before
        → HasRows s laws row_of prepare accepts name before []
            (replicate n (new_batch_writer name size))
            a
    new_writers-HasRows n size before a was = record {
      sent = [];
      stored = was ∙ ap (λ l. some l) (sym (append-nil before));
      kept = λ weight. omega (arith, ap (total weight) (new_writers-pending n size));
      no_errors = refl;
      ours = new_writers-IsOurs n size;
    }

    abbrev weight_of : (Row → ℕ) → Option T → ℕ
    weight_of weight none = 0
    weight_of weight (some v) = weight (row_of v)

    total-values :
        (weight : Row → ℕ) (items : List (Option T))
        → total weight (map row_of (values items)) ≡ total (weight_of weight) items
    total-values weight [] = refl
    total-values weight (none ∷ items) = omega (arith, total-values weight items)
    total-values weight (some v ∷ items) = omega (arith, total-values weight items)

    abbrev is_error : Option T → ℕ
    is_error none = 1
    is_error (some v) = 0

    errors-total : (items : List (Option T)) → errors items ≡ total is_error items
    errors-total [] = refl
    errors-total (none ∷ items) = omega (arith, errors-total items)
    errors-total (some v ∷ items) = omega (arith, errors-total items)

    -- The stream had no error, and the table holds the rows of its values behind those of before, in an
    -- order of the workers.
    pub record IsIngested (stream : List (Option T)) (before : List Row) (b : State) : Type 0 where
      pub no_errors : errors stream ≡ 0
      pub sent : List Row
      pub stored : table b name ≡ some (before ++ sent)
      pub all_rows : SameItems sent (map row_of (values stream))

    flushed_lem :
        (r : Bool × State)
        → (flushed s row_of prepare accepts r).0 ≡ none
        → (r.0 ≡ true) × ((flushed s row_of prepare accepts r).1 ≡ r.1)
    flushed_lem (false, a) h = absurd (cc)
    flushed_lem (true, a) h = (refl, refl)

    flush-IsIngested :
        (stream done : List (Option T)) (before : List Row) (ws : List (Writer Row)) (a : State)
        → HasRows s laws row_of prepare accepts name before done ws a
        → SameItems done stream
        → (flushed s row_of prepare accepts (flush_all s row_of prepare accepts ws a)).0 ≡ none
        → IsIngested stream before
            (flushed s row_of prepare accepts (flush_all s row_of prepare accepts ws a)).1
    flush-IsIngested stream done before ws a h same worked =
        let (good, after) = flushed_lem (flush_all s row_of prepare accepts ws a) worked in
        let rest = flush_all-AreSent s laws row_of prepare accepts name ws a h.ours good in
        record {
          no_errors =
              omega (arith, h.no_errors, errors-total done, errors-total stream, same is_error);
          sent = h.sent ++ rest.sent;
          stored =
              ap (λ b. table b name) after
              ∙ rest.stored (before ++ h.sent) h.stored
              ∙ ap (λ l. some l) (append_assoc before h.sent rest.sent);
          all_rows = λ weight. omega (
            arith,
            h.kept weight,
            rest.all_sent weight,
            total-append weight h.sent rest.sent,
            total-values weight done,
            total-values weight stream,
            same (weight_of weight),
          );
        }

    run-IsIngested :
        (stream done : List (Option T)) (before : List Row) (good : Bool) (shared : SharedState)
        → (good ≡ true
            → HasRows s laws row_of prepare accepts name before done shared.0 shared.1
              × SameItems done stream)
        → (and_flush s row_of prepare accepts (good, shared)).0 ≡ none
        → IsIngested stream before (and_flush s row_of prepare accepts (good, shared)).1
    run-IsIngested stream done before false shared h worked = absurd (cc)
    run-IsIngested stream done before true shared h worked =
        let (rows, same) = h refl in
        flush-IsIngested stream done before shared.0 shared.1 rows same worked

    module _ (cfg : Config) (parallel : List (Option T) → SharedState → Bool × SharedState) where
      parallel-IsIngested :
          (stream : List (Option T)) (before : List Row) (from : SharedState)
          → 1 ≤ pos_part cfg.workers
          → HasRows s laws row_of prepare accepts name before [] from.0 from.1
          → IsParallelRun
              (pos_part cfg.workers)
              (pos_part cfg.buffer_size)
              stream
              from
              (parallel stream from)
          → (and_flush s row_of prepare accepts (parallel stream from)).0 ≡ none
          → IsIngested stream before (and_flush s row_of prepare accepts (parallel stream from)).1
      parallel-IsIngested stream before from positive new (g, run, over, same) worked = rw same (
          run-IsIngested stream (map (λ c. c.1) (calls func g)) before (result func g)
            (state func g)
            (λ good.
              let (ran, all) =
                parallel_for_each_result func stream from _ _ g positive run over good in
              (
                Runs-HasRows s laws row_of prepare accepts name before (calls func g) from
                    (state func g) ran new,
                all,
              ))
            (rw same at worked))

      some_workers : check_start cfg.workers cfg.buffer_size ≡ none → 1 ≤ pos_part cfg.workers
      unfolding check_start
      some_workers h = ground arith

      abbrev new_shared : State → SharedState
      new_shared a = (replicate (pos_part cfg.workers) (new_batch_writer name cfg.batch_size), a)

      abbrev checked : List (Option T) → State → Option IngestError × State
      checked stream a =
          checked_parallel s row_of prepare accepts (check_start cfg.workers cfg.buffer_size)
            (parallel stream) (new_shared a)

      -- `parallel` gives an outcome of `ParallelForEach2` on the stream.
      abbrev pub IsRunOf : List (Option T) → State → Type 0
      IsRunOf stream a =
          IsParallelRun (pos_part cfg.workers) (pos_part cfg.buffer_size) stream (new_shared a)
            (parallel stream (new_shared a))

      checked-IsIngested :
          (stream : List (Option T)) (before : List Row) (a : State)
          → table a name ≡ some before
          → IsRunOf stream a
          → (checked stream a).0 ≡ none
          → IsIngested stream before (checked stream a).1
      checked-IsIngested stream before a was runs worked =
          elim (Option-cases (check_start cfg.workers cfg.buffer_size)) [
            | inr (e, bad) ↦ absurd (cc (rw (checked_parallel, bad) at worked))
            | inl good ↦
                rw (checked_parallel, good)
                  (parallel-IsIngested stream before (new_shared a) (some_workers good)
                    (new_writers-HasRows (pos_part cfg.workers) cfg.batch_size before a was) runs
                    (rw (checked_parallel, good) at worked))
          ]

      -- If `Ingest` returns nil, then the stream had no error, and the table holds a row for each of its
      -- values behind those of before: no value is lost or stored twice, however the workers shared them.
      -- The order of the new rows is the workers'.
      pub ingest-IsIngested :
          (stream : List (Option T)) (before : List Row) (a : State)
          → table a name ≡ some before
          → IsRunOf stream a
          → (ingest s row_of prepare accepts cfg parallel name stream a).0 ≡ none
          → IsIngested stream before (ingest s row_of prepare accepts cfg parallel name stream a).1
      unfolding ingest
      ingest-IsIngested stream before a was runs worked =
          elim (Bool-cases (validate_table_name name)) [
            | inr bad ↦ absurd (cc (rw (ingest, bad) at worked))
            | inl valid ↦
                rw (ingest, valid)
                  (checked-IsIngested stream before a was runs (rw (ingest, valid) at worked))
          ]
