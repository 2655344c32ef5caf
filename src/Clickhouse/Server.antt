-- ===== src/Clickhouse/Server.antt =====
-- The ClickHouse server, which is not part of the repository: what the statements of
-- internal/clickhouse return and how they change its tables, as an interface with laws.
-- A result of `none` or `false` is an error; the tables are those of the database in use.
use fie_importer.Prelude.{
  ℕ, ◌≡◌, ◌≢◌, Bool, true, false, Option, none, some, List, [], ◌++◌, length,
}
use fie_importer.Prelude.Bytes.{Bytes}

pub record Server (Row : Type 0) : Type 1 where
  pub State : Type 0
  -- The rows of a table; `none` where there is no such table.
  pub table : State → Bytes → Option (List Row)
  -- `clickhouse.Open` and `Ping`
  pub connect : State → Bool × State
  -- SELECT count() FROM system.tables
  pub exists : Bytes → State → Option Bool × State
  -- CREATE TABLE, DROP TABLE
  pub create : Bytes → State → Bool × State
  pub drop : Bytes → State → Bool × State
  -- INSERT INTO, as one batch
  pub send : Bytes → List Row → State → Bool × State
  -- SELECT count() FROM the table
  pub count : Bytes → State → Option ℕ × State

-- Two states that hold the same in all tables but perhaps one.
abbrev pub SameBut : {Row : Type 0} (s : Server Row) → Bytes → s.State → s.State → Type 0
SameBut s name a b = (other : Bytes) → other ≢ name → s.table b other ≡ s.table a other

abbrev pub SameTables : {Row : Type 0} (s : Server Row) → s.State → s.State → Type 0
SameTables s a b = (other : Bytes) → s.table b other ≡ s.table a other

-- What ClickHouse documents of these statements, while no other client uses the tables.
pub record IsServer {Row : Type 0} (s : Server Row) : Type 0 where
  pub connect_same : (a : s.State) → SameTables s a (s.connect a).1
  pub exists_same : (n : Bytes) (a : s.State) → SameTables s a (s.exists n a).1
  pub exists_yes : (n : Bytes) (a : s.State) → (s.exists n a).0 ≡ some true → s.table a n ≢ none
  -- Without IF NOT EXISTS a table that is there is an error.
  pub create_ok :
      (n : Bytes) (a : s.State)
      → (s.create n a).0 ≡ true
      → (s.table a n ≡ none) × (s.table (s.create n a).1 n ≡ some [])
  -- An error of CREATE TABLE is the server's. A client that gives up before the answer may leave a table behind,
  -- which is not modelled.
  pub create_failed :
      (n : Bytes) (a : s.State) → (s.create n a).0 ≡ false → SameTables s a (s.create n a).1
  pub create_others : (n : Bytes) (a : s.State) → SameBut s n a (s.create n a).1
  pub drop_ok : (n : Bytes) (a : s.State) → (s.drop n a).0 ≡ true → s.table (s.drop n a).1 n ≡ none
  pub drop_others : (n : Bytes) (a : s.State) → SameBut s n a (s.drop n a).1
  pub send_ok :
      (n : Bytes) (rows : List Row) (a : s.State) (before : List Row)
      → (s.send n rows a).0 ≡ true
      → s.table a n ≡ some before
      → s.table (s.send n rows a).1 n ≡ some (before ++ rows)
  pub send_others : (n : Bytes) (rows : List Row) (a : s.State) → SameBut s n a (s.send n rows a).1
  pub send_keeps :
      (n : Bytes) (rows : List Row) (a : s.State)
      → s.table a n ≢ none
      → s.table (s.send n rows a).1 n ≢ none
  pub count_same : (n : Bytes) (a : s.State) → SameTables s a (s.count n a).1
  pub count_right :
      (n : Bytes) (a : s.State) (k : ℕ) (rows : List Row)
      → (s.count n a).0 ≡ some k
      → s.table a n ≡ some rows
      → k ≡ length rows
