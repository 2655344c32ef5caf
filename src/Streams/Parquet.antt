-- ===== src/Streams/Parquet.antt =====
-- deprecated/internal/streams/parquete_writer.go. The Parquet writer is `Output` with the laws `IsOutput`.
pub mod Written
use fie_importer.Prelude.{
  ℕ, ◌+◌, ◌-◌, ◌%◌, ◌^◌, ◌≡◌, Bool, true, false, not, Option, none, some, List, [], ◌∷◌, ◌++◌,
  if◌then◌else◌, length, is_empty, ℤ, pos, negsuc, leb_ℤ,
}
use fie_importer.Prelude.Bytes.{Bytes}
use fie_importer.Prelude.Time.{Time, unix}
use fie_importer.Fies.Row.{to_ipv6}
use fie_importer.Streams.Compressed.{CompressedFie}
use fie_importer.Streams.Full.{capture_time_of}

-- `api.ParquetLiteFIE`
pub record ParquetRow : Type 0 where
  pub sequence_number : ℕ
  pub probing_directive_id : ℕ
  pub near_reply_address : Option Bytes
  pub far_reply_address : Option Bytes
  pub capture_timestamp : ℕ

-- `uint32(x)` of an int64
abbrev pub uint32 : ℤ → ℕ
uint32 (pos n) = n % 2 ^ 32
uint32 (negsuc n) = 2 ^ 32 - 1 - n % 2 ^ 32

unfoldable pub parquet_row : CompressedFie → ParquetRow
unfolding to_ipv6 unix
parquet_row fie = record {
  sequence_number = fie.sequence_number;
  probing_directive_id = fie.columns.probing_directive_id;
  near_reply_address = to_ipv6 fie.columns.near_reply_address;
  far_reply_address = to_ipv6 fie.columns.far_reply_address;
  capture_timestamp = uint32 (unix (capture_time_of fie));
}

-- The Parquet library's writer: `Write` returns how many rows it wrote, or an error.
pub record Output : Type 1 where
  pub State : Type 0
  pub content : State → List ParquetRow
  pub write_rows : List ParquetRow → State → Option ℕ × State
  pub flush : State → Bool × State

pub record IsOutput (o : Output) : Type 0 where
  pub write_ok :
      (rows : List ParquetRow) (a : o.State) (n : ℕ)
      → (o.write_rows rows a).0 ≡ some n
      → (o.content (o.write_rows rows a).1 ≡ o.content a ++ rows) × (n ≡ length rows)
  pub flush_ok : (a : o.State) → (o.flush a).0 ≡ true → o.content (o.flush a).1 ≡ o.content a

-- `NewLiteFIEParquetIngester`: is the batch size accepted?
unfoldable pub new_parquet_ingester : ℤ → Bool
new_parquet_ingester batch_size = not (leb_ℤ batch_size (pos 0))

module _ (o : Output) where
  open o use {State, content, write_rows, flush}

  -- The writer's state and `w.count`
  abbrev pub Ingester : Type 0
  Ingester = State × ℕ

  abbrev pub counted : ℕ → ℕ → Bool × State → Bool × Ingester
  counted count n (false, a) = (false, (a, count))
  counted count n (true, a) = (true, (a, (count + n) % 2 ^ 64))

  abbrev pub flushed : ℕ → Option ℕ × State → Bool × Ingester
  flushed count (none, a) = (false, (a, count))
  flushed count (some n, a) = counted count n (flush a)

  -- `write`
  unfoldable pub write : List ParquetRow → Ingester → Bool × Ingester
  write rows (a, count) = flushed count (write_rows rows a)

  abbrev pub or_fail : Bool × Ingester → (Ingester → Bool × Ingester) → Bool × Ingester
  or_fail (false, w) f = (false, w)
  or_fail (true, w) f = f w

  -- `Ingest`, with the rows of its buffer
  unfoldable pub ingest :
      ℤ → List (Option CompressedFie) → List ParquetRow → Ingester → Bool × Ingester
  unfolding parquet_row
  ingest batch_size [] rows w = if is_empty rows then (true, w) else write rows w
  ingest batch_size (none ∷ fies) rows w = (false, w)
  ingest batch_size (some fie ∷ fies) rows w =
      let more = rows ++ parquet_row fie ∷ [] in
      let full = or_fail (write more w) (λ v. ingest batch_size fies [] v) in
      let room = ingest batch_size fies more w in
      elim (leb_ℤ batch_size (pos (length more))) [ true ↦ full | false ↦ room ]
