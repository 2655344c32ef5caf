-- ===== src/Streams/ParallelTests.antt =====
-- Runs of the goroutines of `ParallelForEach`, and an ingestion into a server in memory.
use fie_importer.Prelude.{
  ℕ, refl, ◌⊎◌, Bool, true, false, Option, none, some, List, [], ◌∷◌, arith, pos,
}
use fie_importer.Prelude.Bytes.{Bytes, codes}
use fie_importer.Prelude.Bag.{SameItems}
use fie_importer.Clickhouse.Names.{validate_table_name, starts_name, continues_name}
use fie_importer.Clickhouse.Server.{Server}
use fie_importer.Clickhouse.Instance.{Tables, memory, memory-IsServer, set, set_same}
use fie_importer.Streams.Parallel.{
  Group, running, producing, closed, ranging, calling, finished, start, hand_over, call, close,
  finish, Reachable, here, there, IsOver, Runs, check_start,
}
use fie_importer.Streams.Parallel.Workers.{parallel_for_each_result}
use fie_importer.Streams.Parallel.Ends.{Moves, parallel_for_each-Moves}
use fie_importer.Streams.BatchWriter.{new_batch_writer, flush, append, append_to, count_row}
use fie_importer.Streams.Ingester.{Config, Shared, parallel_func, ingest, flush_all}
use fie_importer.Streams.Ingester.Ingested.{IsIngested, IsRunOf, ingest-IsIngested}

-- Each call keeps its item.
abbrev keep : ℕ → ℕ → List ℕ → Bool × List ℕ
keep l t kept = (true, t ∷ kept)

-- Two workers without a buffer: the second one ends its call first.
abbrev both_done : Group keep
both_done =
    running closed [] (finished ∷ finished ∷ []) false false (5 ∷ 6 ∷ []) ((1, 6) ∷ (0, 5) ∷ [])

both_called : Reachable keep 0 (start keep 2 (5 ∷ 6 ∷ []) []) (
    running
      (producing [])
      []
      (ranging ∷ ranging ∷ [])
      false
      false
      (5 ∷ 6 ∷ [])
      ((1, 6) ∷ (0, 5) ∷ []))
unfolding start
both_called =
    there
      (there (there (there here (hand_over [] (ranging ∷ []))) (hand_over (calling 5 ∷ []) []))
        (call (calling 5 ∷ []) [] refl))
      (call [] (ranging ∷ []) refl)

both_ended : Reachable keep 0 (start keep 2 (5 ∷ 6 ∷ []) []) both_done
both_ended =
    there (there (there both_called close) (finish [] (ranging ∷ []))) (finish (finished ∷ []) [])

parallel_for_each_result_example :
    Runs keep ((1, 6) ∷ (0, 5) ∷ []) [] (5 ∷ 6 ∷ []) × SameItems {A = ℕ} (6 ∷ 5 ∷ []) (5 ∷ 6 ∷ [])
parallel_for_each_result_example =
    parallel_for_each_result keep (5 ∷ 6 ∷ []) [] 2 0 both_done (omega arith) both_ended
      (tt, (tt, (tt, tt))) refl

parallel_for_each-Moves_example :
    IsOver keep (start keep 2 (5 ∷ 6 ∷ []) []) ⊎ Moves keep 0 (start keep 2 (5 ∷ 6 ∷ []) [])
parallel_for_each-Moves_example =
    parallel_for_each-Moves keep 0 2 (5 ∷ 6 ∷ []) [] (start keep 2 (5 ∷ 6 ∷ []) []) (omega arith)
      here

abbrev name : Bytes
name = codes "fies"

abbrev numbers : Server ℕ
numbers = memory

-- The table is there and empty.
abbrev empty_table : Tables ℕ
empty_table = set name (some []) (λ other. none)

abbrev config : Config
config = record {
  addresses = codes "localhost:9000" ∷ [];
  workers = pos 1;
  buffer_size = pos 1;
  batch_size = pos 2;
  ddl = codes "CREATE TABLE %s (x UInt64) ENGINE = Memory";
  has_append = true;
}

abbrev prepared : Tables ℕ → Bool
prepared a = true

abbrev all_rows : ℕ → Bool
all_rows r = true

-- One worker, which is handed the two values.
abbrev TestShared : Type 0
TestShared = Shared numbers (λ (n : ℕ). n) prepared all_rows

abbrev func : ℕ → Option ℕ → TestShared → Bool × TestShared
func = parallel_func numbers (λ n. n) prepared all_rows

abbrev after_both : TestShared → TestShared
after_both from = (func 0 (some 6) (func 0 (some 5) from).1).1

abbrev one_worker : List (Option ℕ) → TestShared → Bool × TestShared
one_worker stream from = (true, after_both from)

abbrev at_start : TestShared
at_start = (new_batch_writer name (pos 2) ∷ [], empty_table)

one_worker-IsRunOf :
    IsRunOf numbers
      (λ n. n)
      prepared
      all_rows
      memory-IsServer
      name
      config
      one_worker
      (some 5 ∷ some 6 ∷ [])
      empty_table
unfolding start parallel_func append append_to count_row flush new_batch_writer
one_worker-IsRunOf = (
  running closed [] (finished ∷ []) false false (after_both at_start)
      ((0, some 5) ∷ (0, some 6) ∷ []),
  there
      (there
        (there (there (there (there here (hand_over [] [])) (call [] [] refl)) (hand_over [] []))
          (call [] [] refl))
        close)
      (finish [] []),
  (tt, (tt, tt)),
  refl,
)

ingest-IsIngested_example :
    IsIngested numbers
      (λ n. n)
      prepared
      all_rows
      memory-IsServer
      name
      (some 5 ∷ some 6 ∷ [])
      []
      (ingest numbers
        (λ n. n)
        prepared
        all_rows
        config
        one_worker
        name
        (some 5 ∷ some 6 ∷ [])
        empty_table).1
ingest-IsIngested_example =
    ingest-IsIngested numbers (λ n. n) prepared all_rows memory-IsServer name config one_worker
      (some 5 ∷ some 6 ∷ []) [] empty_table (set_same name (some []) (λ other. none))
      one_worker-IsRunOf
      (unfold ingest in
        unfold validate_table_name in
        unfold starts_name in
        unfold continues_name in
        unfold check_start in
        unfold parallel_func in
        unfold append in
        unfold append_to in
        unfold count_row in unfold flush in unfold flush_all in unfold new_batch_writer in refl)
