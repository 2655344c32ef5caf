-- ===== src/Clickhouse/Insert.antt =====
-- `insert` of internal/clickhouse/clickhouse.go over the batches of the driver, which are an interface with laws.
pub mod Whole
use fie_importer.Prelude.{Bool, Option, none, some, List, [], ◌∷◌, ◌++◌, if◌then◌else◌}
use fie_importer.Prelude.Bytes.{Bytes, codes}
use fie_importer.Clickhouse.Names.{quote}
use fie_importer.Clickhouse.Columns.{Value}

-- A connection of the driver; a result of `false` or `none` is an error.
pub record Connection : Type 1 where
  pub State : Type 0
  pub Batch : Type 0
  -- The rows of a table, by its quoted name
  pub table : State → Bytes → Option (List (List Value))
  -- `PrepareBatch`, of a statement
  pub prepare : Bytes → State → Option Batch × State
  -- `Append`, `Abort`, `Send`
  pub append : List Value → Batch → State → (Bool × Batch) × State
  pub abort : Batch → State → State
  pub send : Batch → State → Bool × State
  -- What a batch holds, and the statement that it was prepared for
  pub content : Batch → List (List Value)
  pub statement : Batch → Bytes

pub data InsertError : Type 0 where
  cannot_prepare cannot_append cannot_send : InsertError

-- `"INSERT INTO "+quote(table)`
abbrev pub insert_into : Bytes → Bytes
insert_into table = codes "INSERT INTO " ++ quote table

module _ (c : Connection) {Row : Type 0} (values : Row → List Value) where
  abbrev pub send_batch : c.Batch → c.State → Option InsertError × c.State
  send_batch batch a =
      let (sent, b) = c.send batch a in (if sent then none else some cannot_send, b)

  -- The loop over the rows, and what is behind it
  unfoldable pub append_rows : List Row → c.Batch → c.State → Option InsertError × c.State
  append_rows [] batch a = send_batch batch a
  append_rows (r ∷ rows) batch a =
      let ((appended, more), b) = c.append (values r) batch a in
      let rest = append_rows rows more b in
      if appended then rest else (some cannot_append, c.abort more b)

  unfoldable pub insert : Bytes → List Row → c.State → Option InsertError × c.State
  unfolding append_rows
  insert table rows a =
      let (prepared, b) = c.prepare (insert_into table) a in
      elim prepared [ none ↦ (some cannot_prepare, b) | some batch ↦ append_rows rows batch b ]
