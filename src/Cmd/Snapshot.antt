-- ===== src/Cmd/Snapshot.antt =====
-- `runUploadAgents`, `takeSnapshot` and `removeString` of cmd/fie-importer/upload_agents.go, and the
-- words of `printAgents` for an agent. The lookups run in parallel on different elements of the list,
-- so that their order does not matter; `interrupted` is whether the context was cancelled.
use fie_importer.Prelude.{
  ℕ, ◌+◌, Bool, true, false, not, Option, none, some, List, [], ◌∷◌, map, if◌then◌else◌, ℤ, pos,
  ltb_ℤ,
}
use fie_importer.Prelude.Bytes.{Bytes}
use fie_importer.Net.{bytes_eq}
use fie_importer.Agents.Agent.{Agent, healthy}
use fie_importer.Agents.List.{Listed, good, bad}
use fie_importer.Clickhouse.Names.{validate_table_name}
use fie_importer.Clickhouse.Server.{Server}
use fie_importer.Cmd.Error.{
  Failure, Result, ok, err, invalid_table_name, bad_ssh_parallel, cannot_list, no_vm, interrupted,
}
use fie_importer.Cmd.Upload.{upload_agents}

-- `takeSnapshot`: `lookup` is `LookupImage`.
unfoldable pub take_snapshot :
    Listed (List Agent) → Bool → (Agent → Agent) → Bool → Result (List Agent)
take_snapshot (bad e) no_ssh lookup cancelled = err cannot_list
take_snapshot (good []) no_ssh lookup cancelled = err no_vm
take_snapshot (good (a ∷ list)) no_ssh lookup cancelled =
    if no_ssh
    then ok (a ∷ list)
    else if cancelled
    then err interrupted
    else ok (map lookup (a ∷ list))

-- `removeString`: without its first occurrence
unfoldable pub remove_string : List Bytes → Bytes → List Bytes
remove_string [] s = []
remove_string (v ∷ list) s =
    let rest = remove_string list s in if bytes_eq v s then list else v ∷ rest

-- `deref`
abbrev pub deref : Option Bytes → Bytes → Bytes
deref none fallback = fallback
deref (some s) fallback = s

-- The counts of `printAgents`: agents whose lookup failed, and others that are not healthy.
abbrev pub lookup_failed : Agent → Bool
lookup_failed a = elim a.version_error [
  | none ↦ false
  | some e ↦ elim a.agent_service_state [ none ↦ true | some state ↦ false ]
]

unfoldable pub count_agents : List Agent → ℕ × ℕ
count_agents [] = (0, 0)
count_agents (a ∷ list) =
    let (failures, unhealthy) = count_agents list in
    if lookup_failed a
    then (failures + 1, unhealthy)
    else if healthy a
    then (failures, unhealthy)
    else (failures, unhealthy + 1)

-- Behind the checks: the snapshot, or its error.
unfoldable pub with_snapshot :
    {S : Type 0} → Bool → Result (List Agent) → (List Agent → S → Failure × S) → S → Failure × S
with_snapshot dry_run (err e) upload a = (some e, a)
with_snapshot dry_run (ok snapshot) upload a = if dry_run then (none, a) else upload snapshot a

module _ (s : Server Agent) (user_set : Bool) where
  unfoldable pub run_upload_agents :
      Bytes
      → ℤ
      → Bool
      → Result (List Agent)
      → (s.State → Option ℕ × s.State)
      → Bool
      → Bool
      → s.State
      → Failure × s.State
  unfolding with_snapshot
  run_upload_agents name ssh_parallel dry_run snapshot count_snapshot append_rows drop_on_fail a =
      let rest =
        with_snapshot dry_run snapshot
          (λ rows b. upload_agents s user_set name count_snapshot rows append_rows drop_on_fail b)
          a in
      if not (validate_table_name name)
      then (some invalid_table_name, a)
      else if ltb_ℤ ssh_parallel (pos 1)
      then (some bad_ssh_parallel, a)
      else rest
