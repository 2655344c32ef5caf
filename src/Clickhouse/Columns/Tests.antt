-- ===== src/Clickhouse/Columns/Tests.antt =====
-- Rows that are inserted over a connection in memory.
use fie_importer.Prelude.{
  ◌≡◌, refl, sym, ap, ◌∙◌, ◌≢◌, Bool, true, false, Option, none, some, List, [], ◌∷◌, ◌++◌, arith,
  drop, replicate, pos,
}
use fie_importer.Prelude.Bytes.{Bytes, codes}
use fie_importer.Prelude.Time.{seconds}
use fie_importer.Net.{v4, unmap}
use fie_importer.Fies.Row.{Raw2a, convert2a, to_16}
use fie_importer.Pds
use fie_importer.Pds.Parse.{Line, ok, parse, read_line, read_destination, half_words}
use fie_importer.Pds.Parse.Accepts.{by_icmp, by_icmpv6, by_udp}
use fie_importer.Agents.Agent.{Agent}
use fie_importer.Clickhouse.Names.{quote}
use fie_importer.Clickhouse.Instance.{Tables, set, set_same, set_other}
use fie_importer.Clickhouse.Columns.{
  Value, fie_columns, fie_values, pd_columns, pd_values, agent_columns, agent_values, RowFits,
}
use fie_importer.Clickhouse.Columns.FieRows.{IsFieRow, fie_values-RowFits}
use fie_importer.Clickhouse.Columns.PdRows.{HasWidths, IsPdRow, pd_values-RowFits}
use fie_importer.Clickhouse.Columns.AgentRows.{IsAgentRow, agent_values-RowFits}
use fie_importer.Clickhouse.Insert.{Connection, insert_into, append_rows, insert}
use fie_importer.Clickhouse.Insert.Whole.{IsConnection, Insertion, insert-Insertion}

-- The table of a statement
abbrev without_end : Bytes → Bytes
without_end [] = []
without_end (b ∷ []) = []
without_end (b ∷ d ∷ bs) = b ∷ without_end (d ∷ bs)

abbrev table_of : Bytes → Bytes
table_of s = without_end (drop 13 s)

without_end-append : (b : Bytes) → without_end (b ++ 96 ∷ []) ≡ b
without_end-append [] = refl
without_end-append (b ∷ []) = refl
without_end-append (b ∷ d ∷ bs) = ap (λ l. b ∷ l) (without_end-append (d ∷ bs))

table_of-insert_into : (name : Bytes) → table_of (insert_into name) ≡ name
unfolding quote
table_of-insert_into name = without_end-append name

abbrev added :
    Bytes
    → List (List Value)
    → Tables (List Value)
    → Option (List (List Value))
    → Bool × Tables (List Value)
added name rows a none = (false, a)
added name rows a (some before) = (true, set name (some (before ++ rows)) a)

abbrev connection : Connection
connection = record {
  State = Tables (List Value);
  Batch = Bytes × List (List Value);
  table = λ a n. a n;
  prepare = λ s a. (some (s, []), a);
  append = λ v batch a. ((true, (batch.0, batch.1 ++ v ∷ [])), a);
  abort = λ batch a. a;
  send = λ batch a. added (table_of batch.0) batch.1 a (a (table_of batch.0));
  content = λ batch. batch.1;
  statement = λ batch. batch.0;
}

added_ok :
    (name : Bytes) (rows : List (List Value)) (a : Tables (List Value))
    (t : Option (List (List Value))) (before : List (List Value))
    → (added name rows a t).0 ≡ true
    → t ≡ some before
    → (added name rows a t).1 name ≡ some (before ++ rows)
added_ok name rows a none before h e = cc
added_ok name rows a (some found) before h e =
    let same : found ≡ before = cc in set_same name _ a ∙ ap (λ l. some (l ++ rows)) same

added_others :
    (name : Bytes) (rows : List (List Value)) (a : Tables (List Value))
    (t : Option (List (List Value))) (other : Bytes)
    → other ≢ name
    → (added name rows a t).1 other ≡ a other
added_others name rows a none other ne = refl
added_others name rows a (some found) other ne = set_other name _ a other ne

connection-IsConnection : IsConnection connection
connection-IsConnection = record {
  prepare_same = λ s a name. refl;
  prepared = λ s a batch e.
      let same : ◌≡◌ {A = Bytes × List (List Value)} (s, []) batch = cc in
      (ap (λ x. x.1) (sym same), ap (λ x. x.0) (sym same));
  append_same = λ v batch a name. refl;
  appended = λ v batch a h. (refl, refl);
  abort_same = λ batch a name. refl;
  sent = λ batch a name before e h t.
      let at : table_of batch.0 ≡ name = ap table_of e ∙ table_of-insert_into name in
      rw at (added_ok name batch.1 a (a name) before (rw at at h) t);
  send_others = λ batch a name other e ne.
      let at : table_of batch.0 ≡ name = ap table_of e ∙ table_of-insert_into name in
      rw at (added_others name batch.1 a (a name) other ne);
}

abbrev table : Bytes
table = codes "pds"

abbrev udp_row : Pds.Parse.Row
udp_row = record {
  pdid = 7;
  agent_id = codes "agent-1";
  ip_version = 4;
  protocol = 17;
  destination = replicate 10 0 ++ 255 ∷ 255 ∷ 10 ∷ 0 ∷ 0 ∷ 1 ∷ [];
  near_ttl = 5;
  first_half_word = 33434;
  second_half_word = 53;
}

abbrev tables : Tables (List Value)
tables = set table (some []) (λ name. none)

insert_runs :
    (insert connection pd_values table (udp_row ∷ []) tables).1 table
    ≡ some (pd_values udp_row ∷ [])
unfolding insert append_rows quote
insert_runs = refl

insert-Insertion_example :
    Insertion connection pd_values table
      (udp_row ∷ udp_row ∷ [])
      tables
      (insert connection pd_values table (udp_row ∷ udp_row ∷ []) tables).1
      (insert connection pd_values table (udp_row ∷ udp_row ∷ []) tables).0
insert-Insertion_example =
    insert-Insertion connection pd_values table connection-IsConnection (udp_row ∷ udp_row ∷ [])
      tables

abbrev raw : Raw2a
raw = record {
  pdid = 7;
  capture_second = 30;
  near_reply_addr = 10 ∷ 0 ∷ 0 ∷ 1 ∷ [];
  far_reply_addr = [];
  near_reply_age_s = some 2;
  far_reply_age_s = none;
  fie_transit_s = some 1;
}

fie_values-RowFits_example :
    RowFits fie_columns (fie_values (convert2a raw (seconds 900)))
    × IsFieRow (convert2a raw (seconds 900)) (fie_values (convert2a raw (seconds 900)))
fie_values-RowFits_example =
    fie_values-RowFits raw (seconds 900) (omega arith) (λ k h. let same : 1 ≡ k = cc in omega arith)

abbrev line : Line
line = record {
  protocol = pos 17;
  agent_id = codes "agent-1";
  destination_address = codes "10.0.0.1";
  near_ttl = 5;
  next_header = record {
    icmp_header = none;
    icmpv6_header = none;
    udp_header = some (record { source_port = 33434; destination_port = 53 });
  };
}

line-HasWidths : HasWidths line
line-HasWidths = record {
  near_ttl = omega arith;
  words = λ w carried. elim carried [
    | by_icmp h p q e ↦ absurd (cc)
    | by_icmpv6 h p q e ↦ absurd (cc)
    | by_udp h p q e ↦
        let same : record { source_port = 33434; destination_port = 53 } ≡ h = cc in
        rw (e, ← same) (omega arith, omega arith)
  ];
}

pd_values-RowFits_example :
    RowFits pd_columns (pd_values udp_row) × IsPdRow udp_row (pd_values udp_row)
unfolding parse read_line read_destination half_words unmap to_16
pd_values-RowFits_example =
    pd_values-RowFits (λ b. some line) (λ t. some (v4 (10 ∷ 0 ∷ 0 ∷ 1 ∷ [])))
      (λ t a h. let same : v4 (10 ∷ 0 ∷ 0 ∷ 1 ∷ []) ≡ a = cc in rw (← same) refl)
      (λ b l h. let same : line ≡ l = cc in rw (← same) line-HasWidths) [] 7 udp_row (omega arith)
      refl

abbrev agent : Agent
agent = record {
  snapshot_time = seconds 100;
  agent_id = codes "agent-1";
  region = codes "europe-west1";
  zone = codes "europe-west1-b";
  network = codes "default";
  subnetwork = codes "default";
  machine_type = codes "e2-small";
  vm_status = codes "RUNNING";
  vm_created_time = seconds 50;
  vm_last_start_time = some (seconds 60);
  internal_ipv4 = some (replicate 10 0 ++ 255 ∷ 255 ∷ 10 ∷ 0 ∷ 0 ∷ 1 ∷ []);
  internal_ipv4_prefix = some (codes "10.0.0.0/20");
  external_ipv4 = none;
  internal_ipv6 = none;
  external_ipv6 = some (replicate 16 1);
  external_ipv6_prefix = none;
  subnet_ipv6_prefix = none;
  agent_image = some (codes "retina-agent");
  agent_image_digest = none;
  agent_container_state = none;
  agent_container_status = none;
  agent_container_started_time = none;
  agent_service_state = none;
  agent_service_restarts = some 3;
  version_error = none;
}

agent_values-RowFits_example :
    RowFits agent_columns (agent_values agent) × IsAgentRow agent (agent_values agent)
agent_values-RowFits_example = agent_values-RowFits agent (record {
  internal_ipv6 = λ v h. absurd (cc);
  external_ipv6 = λ v h. let same : replicate 16 1 ≡ v = cc in rw (← same) refl;
  restarts = λ k h. let same : 3 ≡ k = cc in omega arith;
})
