-- ===== src/Cmd/FdhTests.antt =====
-- compute-fdhs run on a server in memory, and its theorems at such runs.
use fie_importer.Prelude.{
  ◌<◌, ◌^◌, ap, inl, inr, ltb, ltb→lt, Bool-cases, append-nil, arith, if◌then◌else◌, ℕ, ◌+◌, ◌≤◌,
  ◌≡◌, refl, sym, ◌∙◌, ◌≢◌, ◌↔◌, Bool, true, false, Option, none, some, List, [], ◌∷◌, ◌++◌, map,
  length, replicate,
}
use fie_importer.Prelude.Bytes.{Bytes, codes}
use fie_importer.Prelude.Time.{seconds}
use fie_importer.Fies.Row
use fie_importer.Pds.Parse
use fie_importer.Clickhouse.Names.{validate_table_name, starts_name, continues_name}
use fie_importer.Clickhouse.Fdhs.{
  FdhSource, Stored, fie, pd, fdh, fies_in, pds_in, fdh_rows, fdhs_of, join_pds, null_if_zero,
  count_fdh_source,
}
use fie_importer.Clickhouse.Fdhs.Count.{IsKeyed, length-fdh_rows}
use fie_importer.Clickhouse.Server.{Server}
use fie_importer.Clickhouse.Instance.{Tables, set, set_same, set_other, memory, memory-IsServer}
use fie_importer.Cmd.Error.{and_then}
use fie_importer.Cmd.Table.{
  create_table, drop_table, open_existing, open_table, new_table, drop_on_failure, guarded,
}
use fie_importer.Cmd.Table.Guarded.{Outcome}
use fie_importer.Cmd.Upload.{check_count}
use fie_importer.Cmd.Fdhs.{
  FdhClient, fdh_fie_columns, fdh_pd_columns, missing_columns, check_fdh_tables, check_missing,
  expected_rows, check_fdh_input, lift, count_input, prepare_fdhs, insert_fdhs_or_kill, fill_fdhs,
  compute_fdhs, run_compute_fdhs,
}
use fie_importer.Cmd.Fdhs.Source.{with_source, with_source-IsServer}
use fie_importer.Cmd.Fdhs.Outcomes.{IsFdhClient, compute_fdhs-Outcome}
use fie_importer.Cmd.Fdhs.Joined.{IsFdhInsert, Holds, run_compute_fdhs_succeeds}
use fie_importer.Prelude.Bag.{total}

abbrev server : Server Stored
server = memory

abbrev inserted :
    Bytes
    → Tables Stored
    → Option (List Stored)
    → Option (List Stored)
    → Option (List Stored)
    → Bool × Tables Stored
inserted t a none fs ps = (false, a)
inserted t a (some before) none ps = (false, a)
inserted t a (some before) (some fs) none = (false, a)
inserted t a (some before) (some fs) (some ps) =
    (true, set t (some (before ++ map fdh (fdh_rows (fies_in fs) (pds_in ps)))) a)

-- The numbers are UInt64.
abbrev fitting : FdhSource → Option FdhSource
fitting n = if ltb n.near_fies (2 ^ 64) then some n else none

abbrev counted : Option (List Stored) → Option (List Stored) → Option FdhSource
counted none ps = none
counted (some fs) none = none
counted (some fs) (some ps) = fitting (count_fdh_source (fies_in fs) (pds_in ps))

abbrev client : FdhClient server
client = record {
  columns = λ t a. (some (fdh_fie_columns ++ fdh_pd_columns), a);
  count_source = λ f p a. (counted (a f) (a p), a);
  has_query_id = λ a. true;
  insert_fdhs = λ t f p a. inserted t a (a t) (a f) (a p);
  kill_query = λ a. a;
}

inserted_others :
    (t : Bytes) (a : Tables Stored) (x y z : Option (List Stored)) (other : Bytes)
    → other ≢ t
    → (inserted t a x y z).1 other ≡ a other
inserted_others t a none y z other ne = refl
inserted_others t a (some before) none z other ne = refl
inserted_others t a (some before) (some fs) none other ne = refl
inserted_others t a (some before) (some fs) (some ps) other ne = set_other t _ a other ne

inserted_keeps :
    (t : Bytes) (a : Tables Stored) (x y z : Option (List Stored))
    → a t ≢ none
    → (inserted t a x y z).1 t ≢ none
inserted_keeps t a none y z was gone = was gone
inserted_keeps t a (some before) none z was gone = was gone
inserted_keeps t a (some before) (some fs) none was gone = was gone
inserted_keeps t a (some before) (some fs) (some ps) was gone = cc (sym (set_same t _ a) ∙ gone)

inserted_right :
    (t : Bytes) (a : Tables Stored) (x y z : Option (List Stored)) (before fs ps : List Stored)
    → (inserted t a x y z).0 ≡ true
    → x ≡ some before
    → y ≡ some fs
    → z ≡ some ps
    → (inserted t a x y z).1 t ≡ some (before ++ map fdh (fdh_rows (fies_in fs) (pds_in ps)))
inserted_right t a x y z before fs ps h ex ey ez = rw (ex, ey, ez) (set_same t _ a)

client-IsFdhClient : IsFdhClient client
client-IsFdhClient = record {
  columns_same = λ t a other. refl;
  source_same = λ f p a other. refl;
  kill_same = λ a other. refl;
  insert_others = λ t f p a. inserted_others t a (a t) (a f) (a p);
  insert_keeps = λ t f p a. inserted_keeps t a (a t) (a f) (a p);
}

counted_right :
    (x y : Option (List Stored)) (n : FdhSource) (fs ps : List Stored)
    → counted x y ≡ some n
    → x ≡ some fs
    → y ≡ some ps
    → (n ≡ count_fdh_source (fies_in fs) (pds_in ps)) × (n.near_fies < 2 ^ 64)
counted_right x y n fs ps h ex ey =
    fitting_right (count_fdh_source (fies_in fs) (pds_in ps)) n (rw (ex, ey) at h)
  where
    fitting_right : (m k : FdhSource) → fitting m ≡ some k → (k ≡ m) × (k.near_fies < 2 ^ 64)
    fitting_right m k g = elim (Bool-cases (ltb m.near_fies (2 ^ 64))) [
      | inr e ↦ absurd (cc (rw (if◌then◌else◌, e) at g))
      | inl e ↦
          let same : m ≡ k = cc (rw (if◌then◌else◌, e) at g) in
          (sym same, rw (← same) (ltb→lt m.near_fies (2 ^ 64) e))
    ]

client-IsFdhInsert : IsFdhInsert client
client-IsFdhInsert = record {
  source_right = λ f p a n fs ps. counted_right (a f) (a p) n fs ps;
  insert_part = λ t f p a before fs ps h ex ey ez.
      let all = before ++ map fdh (fdh_rows (fies_in fs) (pds_in ps)) in
      (
        all,
        [],
        inserted_right t a (a t) (a f) (a p) before fs ps h ex ey ez,
        λ weight. ap (λ l. total weight l) (append-nil all),
      );
}

abbrev near : Bytes
near = replicate 15 0 ++ 1 ∷ []

abbrev fie_of : ℕ → Option Bytes → Row.Row
fie_of id reply = record {
  source_format = Row.format_2a;
  pdid = id;
  capture_time = seconds 1030;
  fie_transit_s = none;
  near_reply_addr = reply;
  far_reply_addr = some (replicate 16 0);
  near_probe_sent_time = none;
  near_reply_recv_time = none;
  far_probe_sent_time = none;
  far_reply_recv_time = none;
}

abbrev pd_of : ℕ → Parse.Row
pd_of id = record {
  pdid = id;
  agent_id = codes "agent";
  ip_version = 6;
  protocol = 58;
  destination = near;
  near_ttl = 5;
  first_half_word = 0;
  second_half_word = 0;
}

abbrev fies : List Row.Row
fies = fie_of 7 (some near) ∷ fie_of 8 none ∷ fie_of 9 (some near) ∷ []

abbrev pds : List Parse.Row
pds = pd_of 7 ∷ pd_of 8 ∷ []

length-fdh_rows_example :
    ((count_fdh_source fies pds).near_fies
      ≤ length (fdh_rows fies pds) + (count_fdh_source fies pds).missing_pd)
    × ((length (fdh_rows fies pds) + (count_fdh_source fies pds).missing_pd
          ≡ (count_fdh_source fies pds).near_fies)
        ↔ IsKeyed fies pds)
length-fdh_rows_example = length-fdh_rows fies pds

one_joined : length (fdh_rows fies pds) ≡ 1
unfolding fdh_rows fdhs_of join_pds null_if_zero
one_joined = refl

abbrev tables : Tables Stored
tables = set (codes "f") (some (map fie fies)) (set (codes "p") (some (map pd pds)) (λ name. none))

abbrev begun : (with_source server).State
begun = (tables, record { near_fies = 0; missing_pd = 0 })

compute_fdhs-Outcome_example :
    Outcome
      (with_source server)
      (with_source-IsServer server memory-IsServer)
      (codes "h")
      false
      (λ created. true)
      begun
      (compute_fdhs server client true (codes "h") (codes "f") (codes "p") true begun)
compute_fdhs-Outcome_example =
    compute_fdhs-Outcome server memory-IsServer client client-IsFdhClient true (codes "h")
      (codes "f") (codes "p") true begun

computed :
    (run_compute_fdhs server client true (codes "h") (codes "f") (codes "p") true false begun).0
    ≡ none
unfolding run_compute_fdhs and_then check_fdh_tables compute_fdhs guarded new_table open_table
    open_existing prepare_fdhs lift check_fdh_input check_missing missing_columns count_input
    create_table validate_table_name starts_name continues_name drop_on_failure drop_table fill_fdhs
    insert_fdhs_or_kill check_count expected_rows count_fdh_source fdh_rows fdhs_of join_pds
    null_if_zero
computed = refl

keyed : IsKeyed fies pds
keyed = ((λ h. omega arith), ((λ h. cc), ((λ h. omega arith), tt)))

run_compute_fdhs_succeeds_example :
    (tables (codes "h") ≡ none)
    × Holds server memory-IsServer client client-IsFdhClient client-IsFdhInsert true
        (codes "h")
        (codes "f")
        (codes "p")
        true
        begun
        (map fie fies)
        (map pd pds)
        refl
        refl
        keyed
        (run_compute_fdhs server client true (codes "h") (codes "f") (codes "p") true false begun).1
run_compute_fdhs_succeeds_example =
    run_compute_fdhs_succeeds server memory-IsServer client client-IsFdhClient client-IsFdhInsert
      true (codes "h") (codes "f") (codes "p") true begun (map fie fies) (map pd pds) refl refl
      keyed computed
