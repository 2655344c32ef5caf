-- ===== src/Cmd/Table.antt =====
-- cmd/fie-importer/shared.go: `newTable`, `openTable` and `dropOnFailure`, over `TableExists`,
-- `createTable` and `DropTable` of internal/clickhouse/clickhouse.go.
pub mod Opened
pub mod Guarded
use fie_importer.Prelude.{Bool, true, false, not, Option, none, some, if◌then◌else◌, drop}
use fie_importer.Prelude.Bytes.{Bytes}
use fie_importer.Clickhouse.Names.{validate_table_name}
use fie_importer.Clickhouse.Server.{Server}
use fie_importer.Cmd.Error.{
  Error, Failure, Result, ok, err, invalid_table_name, user_not_set, cannot_connect, cannot_look_up,
  already_exists, cannot_create, dropped, drop_failed,
}

module _ {Row : Type 0} (s : Server Row) where
  open s use {State, connect, exists, create, drop}

  -- `createTable`
  unfoldable pub create_table : Bytes → State → Failure × State
  create_table name a =
      if not (validate_table_name name)
      then (some invalid_table_name, a)
      else let (done, a') = create name a in (if done then none else some cannot_create, a')

  -- `DropTable`: was the table dropped?
  unfoldable pub drop_table : Bytes → State → Bool × State
  drop_table name a = if not (validate_table_name name) then (false, a) else drop name a

  -- The `switch` over `TableExists`: `created`, or the error.
  unfoldable pub open_existing :
      Option Bool → (Bytes → State → Failure × State) → Bool → Bytes → State → Result Bool × State
  open_existing none make append_ok name a = (err cannot_look_up, a)
  open_existing (some true) make append_ok name a =
      (if append_ok then ok false else err already_exists, a)
  open_existing (some false) make append_ok name a =
      let (failure, a') = make name a in (elim failure [ none ↦ ok true | some e ↦ err e ], a')

  -- `user_set` is whether CH_USER is set; `make` is the `create` argument.
  unfoldable pub open_table :
      Bool → (Bytes → State → Failure × State) → Bool → Bytes → State → Result Bool × State
  unfolding open_existing
  open_table user_set make append_ok name a =
      let (connected, b) = connect a in
      let (there, c) = exists name b in
      if not user_set
      then (err user_not_set, a)
      else if not connected
      then (err cannot_connect, b)
      else open_existing there make append_ok name c

  unfoldable pub new_table :
      Bool → (Bytes → State → Failure × State) → Bytes → State → Result Bool × State
  unfolding open_table
  new_table user_set make name a = open_table user_set make false name a

  unfoldable pub drop_on_failure : Bytes → Bool → Failure × State → Failure × State
  unfolding drop_table
  drop_on_failure name wanted (none, a) = (none, a)
  drop_on_failure name wanted (some e, a) =
      let (done, b) = drop_table name a in
      if not wanted then (some e, a) else (some (if done then dropped e else drop_failed e), b)

  -- The shape of the commands: open the table, return if that fails, and run the rest with
  -- `dropOnFailure` deferred; `wanted` is its `drop` argument, by whether the table was created.
  unfoldable pub guarded :
      Bytes → (Bool → Bool) → (State → Failure × State) → Result Bool × State → Failure × State
  guarded name wanted body (err e, a) = (some e, a)
  guarded name wanted body (ok created, a) = drop_on_failure name (wanted created) (body a)
