-- ===== src/Streams/BatchWriter.antt =====
-- deprecated/internal/streams/clickhouse_batch_writer.go. Its connection is a `Server`; `prepare` is whether
-- `PrepareBatch` succeeds, and `accepts` whether the driver's batch takes a row.
pub mod Sent
pub mod Appended
use fie_importer.Prelude.{
  ℕ, suc, Bool, true, false, Option, none, some, List, [], ◌∷◌, ◌++◌, ◌==◌, if◌then◌else◌, ℤ, pos,
  leb_ℤ,
}
use fie_importer.Prelude.Bytes.{Bytes}
use fie_importer.Clickhouse.Server.{Server}

-- `clickhouseBatchWriter` without its connection; the rows of a batch are in the order of their appends.
pub record Writer (Row : Type 0) : Type 0 where
  pub table_name : Bytes
  pub batch_size : ℤ
  pub batch : Option (List Row)
  pub rows : ℕ
  pub total : ℕ

unfoldable pub new_batch_writer : {Row : Type 0} → Bytes → ℤ → Writer Row
new_batch_writer name size = record {
  table_name = name;
  batch_size = size;
  batch = none;
  rows = 0;
  total = 0;
}

module _ {Row : Type 0} (s : Server Row) where
  open s use {State, send}

  abbrev sent_batch : Writer Row → Bool × State → Bool × Writer Row × State
  sent_batch w (false, a) = (false, w, a)
  sent_batch w (true, a) = (true, record w { batch = none; rows = 0 }, a)

  abbrev flush_batch : Writer Row → Option (List Row) → State → Bool × Writer Row × State
  flush_batch w none a = (true, w, a)
  flush_batch w (some b) a =
      if w.rows == 0 then (true, w, a) else sent_batch w (send w.table_name b a)

  -- `Flush`
  unfoldable pub flush : Writer Row → State → Bool × Writer Row × State
  flush w a = flush_batch w w.batch a

  module _ (prepare : State → Bool) (accepts : Row → Bool) where
    -- From `w.rows++` on
    unfoldable pub count_row : Writer Row → List Row → State → Bool × Writer Row × State
    count_row w b a =
        let counted : Writer Row = record w {
          batch = some b;
          rows = suc w.rows;
          total = suc w.total;
        } in
        if leb_ℤ w.batch_size (pos (suc w.rows)) then flush counted a else (true, counted, a)

    -- From `w.batch.Append` on
    unfoldable pub append_to : Writer Row → List Row → Row → State → Bool × Writer Row × State
    append_to w b r a =
        if accepts r then count_row w (b ++ r ∷ []) a else (false, record w { batch = some b }, a)

    abbrev append_batch : Writer Row → Option (List Row) → Row → State → Bool × Writer Row × State
    append_batch w none r a = if prepare a then append_to w [] r a else (false, w, a)
    append_batch w (some b) r a = append_to w b r a

    -- `Append`
    unfoldable pub append : Writer Row → Row → State → Bool × Writer Row × State
    append w r a = append_batch w w.batch r a
