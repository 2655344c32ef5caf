-- ===== src/Lib.antt =====
-- fie-importer: the commands that read FIE capture files, PD files and the agents of a project and load
-- them into ClickHouse tables, merge capture files into one, and compute the FDH table; and the retired
-- streams (deprecated/internal/streams) that an earlier program read, joined and ingested events with.
--
-- The parts and how they interact. `upload-fies` opens a directory of capture files (internal/fies:
-- `Source`, with a filter), counts the rows of each file (`Plan`), cuts the global offset and limit into
-- the files (`Window`), and runs two goroutines (`transfer`): one converts rows (`Convert2a`) and batches
-- them, the other inserts the batches. Around this, cmd/fie-importer/shared.go opens a new table and drops
-- it when the command fails. `upload-pds` does the same with the lines of a PD file (internal/pds), and
-- `upload-agents` with the list of agents. `merge-fies` checks that the files do not overlap before it
-- merges them, and verifies the output if asked to. Each run is recorded with its command line
-- (cmd/fie-importer/operations.go). In the retired streams a reader yields values one by one; a join
-- resolves each with the directives and the addresses that the agents had, and an ingester hands the values
-- to workers that each fill batches of their own.
--
-- Which file models what:
--   Prelude      numbers of Go (ℤ over the native ℕ), slices, times in nanoseconds, sorting
--   Fies         internal/fies: File, Source (`Open`, `init`, `readMetadata`, `Plan`),
--                Window (`Read`, `Window`), Row (`Convert2a`, `recvTime`, `toIPv6`),
--                Filter (`Filter`, `Validate`, `overlaps`, `where`), Layout (`CheckLayout`),
--                Merge (`CheckOutput`, `Merge`), Verify (`Verify`)
--   Pds          internal/pds/pds.go: Parse (`Parse`), Reader (`Reader`, `Next`)
--   Text         quoting and printing: Sql (`quote` of internal/fies/merge.go), Shell (`commandLine` and
--                `shellQuote` of cmd/fie-importer/operations.go), Group (`group` of shared.go), Decimal
--                (strconv), Split (`strings.Split` and `strings.Cut`)
--   Net          the addresses of Go's net and net/netip
--   Agents       internal/agents: Agent (its record and gcloud's lists), List (`List`, `toAgent`), Lookup
--                (`LookupImage`)
--   Clickhouse   internal/clickhouse: Names (`ValidateTableName`, `quote`), Server (the server, as an
--                interface with laws), Instance (a server in memory that meets them), Columns (the tables
--                and the values of the inserts), Insert (`insert` over the driver's batches), Summary (the
--                summaries), Fdhs (the queries of fdhs.go)
--   Cmd          cmd/fie-importer: Table (`openTable`, `newTable`, `dropOnFailure`), Upload (`upload`,
--                `uploadPDs`, `runUploadAgents` behind their checks), Transfer (`transfer`, `transferPDs`
--                as a step relation of the two goroutines, the channel and the context), UploadFies
--                (`runUpload`; `filter` in its Options, and in its Directory the run from the options and
--                the files of a directory to the table; `dryRun` in its DryRun), PdStats (`pdStats`, `dryRunPDs`),
--                Fdhs (compute_fdhs.go), Log (operations.go), Snapshot (upload_agents.go),
--                UploadPds (`runUploadPDs`), Merge (`runMerge`), Watch (`watchSize`)
--   Streams      deprecated/internal/streams: Raw (raw_event_stream.go, current_status_stream.go),
--                Connections (agent_connection_history.go), BatchWriter (clickhouse_batch_writer.go),
--                Parallel (parallel_foreach.go, as a step relation), Ingester (clickhouse_ingester.go),
--                Compressed (compressed_fie_stream.go), Full (full_fie_stream.go,
--                probing_directive_stream.go), Lite (clickhouse_fie_ingesters.go), Parquet
--                (parquete_writer.go); Items is the `iter.Seq2` of a value and an error
--   Progress     internal/progress: `draw` and the samples of `rate`
--
-- State. A command is a function from the state of the server to an error (`none` is nil) and the state
-- behind it. The transfer is a state of both goroutines with a relation `Step`: a reachable state is
-- one that some schedule leads to. The parallel loop of the streams has the same form, with a list of
-- workers in place of the one consumer.
--
-- Bounds and fuel. Times are integers of nanoseconds, as `time.Duration`, and saturate where Go's `Sub`
-- does. A percentage is a float64, as `Double` of Prelude, with the rounding of IEEE 754. A PD ID keeps
-- its bound of 32 bits. `read_all` of Pds has fuel, one round for each line and one more: each round reads
-- a line. The measure of a transfer, `work`, counts what both goroutines have left; that of a parallel
-- loop does the same for all its workers. The binary search of `AddressAt` has the length of its range as
-- fuel, which each round at least makes one smaller.
--
-- What is a parameter. ClickHouse is `Server` with the laws `IsServer`, which hold while no other client
-- uses the tables, and while the client waits for the answer to CREATE TABLE; DuckDB's answers are
-- `rows_of`, the rows of a file behind its filter, and `Disk` with the laws `IsDisk` for a merge; JSON and
-- address parsing, time parsing and the output of gcloud are functions or values that the definitions
-- take; the Parquet library is an interface with laws, and the lines of a frame of the display are a
-- parameter. What is not modelled: the figures of the display (floating point), its counters and its
-- ticker, flag parsing, the SQL texts as such (their meaning is stated instead, that of the query of
-- `Verify` too), and the retired program deprecated/cmd/fie-importer/main.go, which calls the streams.
pub mod Prelude
pub mod Fies
pub mod Text
pub mod Net
pub mod Pds
pub mod Agents
pub mod Clickhouse
pub mod Cmd
pub mod Streams
pub mod Progress
