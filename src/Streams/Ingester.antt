-- ===== src/Streams/Ingester.antt =====
-- deprecated/internal/streams/clickhouse_ingester.go. ClickHouse is a `Server`; `row_of` is what the
-- configured `Append` appends for a value, one row, as in clickhouse_fie_ingesters.go.
pub mod Rows
pub mod Ingested
use fie_importer.Prelude.{
  ℕ, zero, suc, Bool, true, false, not, Option, none, some, List, [], ◌∷◌, if◌then◌else◌, is_empty,
  get_elem?, drop, replicate, ℤ, pos, pos_part, ltb_ℤ, leb_ℤ,
}
use fie_importer.Prelude.Bytes.{Bytes}
use fie_importer.Clickhouse.Names.{validate_table_name}
use fie_importer.Clickhouse.Server.{Server}
use fie_importer.Streams.BatchWriter.{Writer, new_batch_writer, flush, append}
use fie_importer.Streams.Parallel.{StartError, check_start}

pub record Config : Type 0 where
  pub addresses : List Bytes
  pub workers : ℤ
  pub buffer_size : ℤ
  pub batch_size : ℤ
  pub ddl : Bytes
  -- `cfg.Append != nil`
  pub has_append : Bool

pub data IngestError : Type 0 where
  bad_workers bad_buffer bad_batch no_address no_ddl no_append cannot_open : IngestError
  bad_identifier create_failed drop_failed flush_failed not_parallel : IngestError
  cannot_start : StartError → IngestError

-- The checks of `NewClickHouseIngester`
unfoldable pub check_config : Config → Option IngestError
check_config cfg =
    if leb_ℤ cfg.workers (pos 0)
    then some bad_workers
    else if ltb_ℤ cfg.buffer_size (pos 0)
    then some bad_buffer
    else if leb_ℤ cfg.batch_size (pos 0)
    then some bad_batch
    else if is_empty cfg.addresses
    then some no_address
    else if is_empty cfg.ddl
    then some no_ddl
    else if not cfg.has_append
    then some no_append
    else none

-- `NewClickHouseIngester`; `opens` is whether `clickhouse.Open` succeeds.
unfoldable pub new_ingester : Config → Bool → Option IngestError
unfolding check_config
new_ingester cfg opens = elim (check_config cfg) [
  | some e ↦ some e
  | none ↦ if opens then none else some cannot_open
]

abbrev pub set_elem {ℓ} : {A : Type ℓ} → ℕ → A → List A → List A
set_elem n x [] = []
set_elem zero x (y ∷ ys) = x ∷ ys
set_elem (suc n) x (y ∷ ys) = y ∷ set_elem n x ys

module _ {T Row : Type 0} (s : Server Row) (row_of : T → Row) (prepare : s.State → Bool)
    (accepts : Row → Bool) where
  open s use {State, create, drop}

  -- What the workers share: their writers and the server.
  abbrev pub Shared : Type 0
  Shared = List (Writer Row) × State

  abbrev with_writer : ℕ → List (Writer Row) → Bool × Writer Row × State → Bool × Shared
  with_writer l ws (worked, w, a) = (worked, (set_elem l w ws, a))

  abbrev append_value : ℕ → T → Option (Writer Row) → List (Writer Row) → State → Bool × Shared
  append_value l value none ws a = (false, (ws, a))
  append_value l value (some w) ws a =
      with_writer l ws (append s prepare accepts w (row_of value) a)

  -- `parallelForEachFunc`; an item is a value of the stream, or its error. The index of a worker is
  -- below their number.
  unfoldable pub parallel_func : ℕ → Option T → Shared → Bool × Shared
  parallel_func l none (ws, a) = (false, (ws, a))
  parallel_func l (some value) (ws, a) = append_value l value (get_elem? ws l) ws a

  -- The loop of `worker.Flush()`
  unfoldable pub flush_all : List (Writer Row) → State → Bool × State
  flush_all [] a = (true, a)
  flush_all (w ∷ ws) a =
      let (worked, v, b) = flush s w a in elim worked [ false ↦ (false, b) | true ↦ flush_all ws b ]

  abbrev pub flushed : Bool × State → Option IngestError × State
  flushed (false, a) = (some flush_failed, a)
  flushed (true, a) = (none, a)

  abbrev pub and_flush : Bool × Shared → Option IngestError × State
  and_flush (false, (ws, a)) = (some not_parallel, a)
  and_flush (true, (ws, a)) = flushed (flush_all ws a)

  -- `ParallelForEach2`: its checks, and then `parallel`, which runs the goroutines.
  abbrev pub checked_parallel :
      Option StartError → (Shared → Bool × Shared) → Shared → Option IngestError × State
  checked_parallel (some e) parallel (ws, a) = (some (cannot_start e), a)
  checked_parallel none parallel shared = and_flush (parallel shared)

  module _ (cfg : Config) (parallel : List (Option T) → Shared → Bool × Shared) where
    -- `Ingest`
    unfoldable pub ingest : Bytes → List (Option T) → State → Option IngestError × State
    ingest name stream a =
        if validate_table_name name
        then checked_parallel (check_start cfg.workers cfg.buffer_size) (parallel stream)
            (replicate (pos_part cfg.workers) (new_batch_writer name cfg.batch_size), a)
        else (some bad_identifier, a)

  abbrev or_error : IngestError → Bool × State → Option IngestError × State
  or_error e (true, a) = (none, a)
  or_error e (false, a) = (some e, a)

  -- `Create`
  unfoldable pub create_table : Bytes → State → Option IngestError × State
  create_table name a =
      if validate_table_name name
      then or_error create_failed (create name a)
      else (some bad_identifier, a)

  -- `Drop`, where `drop` is DROP TABLE IF EXISTS
  unfoldable pub drop_table : Bytes → State → Option IngestError × State
  drop_table name a =
      if validate_table_name name
      then or_error drop_failed (drop name a)
      else (some bad_identifier, a)
