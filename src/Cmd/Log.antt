-- ===== src/Cmd/Log.antt =====
-- cmd/fie-importer/operations.go: `logged`, `newOperation` and `logOperation`, with `LogOperation` of
-- internal/clickhouse/operations.go. The clock, the user and the host are arguments.
use fie_importer.Prelude.{
  ◌≡◌, refl, Bool, true, false, not, Option, none, some, List, [], ◌∷◌, if◌then◌else◌,
}
use fie_importer.Prelude.Time.{Time, Duration}
use fie_importer.Prelude.Bytes.{Bytes, codes}
use fie_importer.Text.Shell.{command_line}
use fie_importer.Clickhouse.Server.{Server}
use fie_importer.Cmd.Error.{
  Error, Failure, user_not_set, cannot_connect, cannot_create, cannot_insert,
}

-- A row of the operations table
pub record Operation : Type 0 where
  pub time : Time
  pub operation : Bytes
  pub table : Bytes
  pub command : Bytes
  pub status : Bytes
  pub error : Option Error
  pub duration : Duration
  pub version : Bytes
  pub os_user : Bytes
  pub host : Bytes

-- What the process knows of its run: `user` is `none` where `user.Current` fails.
pub record Process : Type 0 where
  pub args : List Bytes
  pub started : Time
  pub took : Duration
  pub version : Bytes
  pub user : Option Bytes
  pub host : Bytes

abbrev user_or_empty : Option Bytes → Bytes
user_or_empty none = []
user_or_empty (some u) = u

-- `Status`: "ok" where there is no error
abbrev pub status_of : Failure → Bytes
status_of none = codes "ok"
status_of (some e) = codes "failed"

unfoldable pub new_operation : Bytes → Bytes → Process → Failure → Operation
new_operation name table p failure = record {
  time = p.started;
  operation = name;
  table = table;
  command = command_line p.args;
  status = status_of failure;
  error = failure;
  duration = p.took;
  version = p.version;
  os_user = user_or_empty p.user;
  host = p.host;
}

abbrev pub operations_table : Bytes
operations_table = codes "fie_importer_operations"

module _ (s : Server Operation) (create_if_missing : Bytes → s.State → Bool × s.State) where
  -- `LogOperation`
  unfoldable pub append_operation : Operation → s.State → Failure × s.State
  append_operation op a =
      let (made, b) = create_if_missing operations_table a in
      let (sent, c) = s.send operations_table (op ∷ []) b in
      if not made
      then (some cannot_create, b)
      else if sent
      then (none, c)
      else (some cannot_insert, c)

  -- `logOperation`, on its own connection
  unfoldable pub log_operation : Bool → Operation → s.State → Failure × s.State
  unfolding append_operation
  log_operation user_set op a =
      let (connected, b) = s.connect a in
      if not user_set
      then (some user_not_set, a)
      else if not connected
      then (some cannot_connect, b)
      else append_operation op b

  -- `logged`: `run` is the command, and a failure to record it is only a warning.
  unfoldable pub logged :
      Bool
      → Bytes
      → Bytes
      → Bool
      → Process
      → (s.State → Failure × s.State)
      → s.State
      → Failure × s.State
  unfolding log_operation new_operation
  logged user_set name table dry_run p run a =
      let (failure, b) = run a in
      let recorded = log_operation user_set (new_operation name table p failure) b in
      if dry_run then (failure, b) else (failure, recorded.1)

  -- The result of a command is its own, whatever becomes of the record.
  logged-run :
      (user_set : Bool) (name table : Bytes) (dry_run : Bool) (p : Process)
      (run : s.State → Failure × s.State) (a : s.State)
      → (logged user_set name table dry_run p run a).0 ≡ (run a).0
  unfolding logged
  logged-run user_set name table true p run a = refl
  logged-run user_set name table false p run a = refl
