-- ===== src/Cmd/PdTests.antt =====
-- The numbers of a dry run of upload-pds at two rows.
use fie_importer.Prelude.{ℕ, ◌≡◌, refl, List, [], ◌∷◌}
use fie_importer.Prelude.Bytes.{Bytes, codes}
use fie_importer.Pds.Parse.{Row}
use fie_importer.Pds.Reader.{end_of_file}
use fie_importer.Pds.Tests.{unmarshal_test, parse_addr_test, udp_row, two_lines, read_all_runs}
use fie_importer.Clickhouse.Summary.{summarize_pds}
use fie_importer.Cmd.PdStats.Same.{IsSame, dry_run_pds-IsSame}
use fie_importer.Cmd.PdStats.{PdStats, bump, started, add, add_all, summary, dry_run_pds}

abbrev pd_of : ℕ → ℕ → Bytes → Row
pd_of id version agent = record {
  pdid = id;
  agent_id = agent;
  ip_version = version;
  protocol = 17;
  destination = [];
  near_ttl = 5;
  first_half_word = 0;
  second_half_word = 0;
}

abbrev two : List Row
two = pd_of 7 4 (codes "a") ∷ pd_of 8 6 (codes "b") ∷ []

abbrev printed : PdStats
printed = record {
  rows = 2;
  ipv4 = 1;
  ipv6 = 1;
  agents = (codes "a", 1) ∷ (codes "b", 1) ∷ [];
  protocols = (17, 2) ∷ [];
  first_id = 7;
  last_id = 8;
}

dry_run_runs : dry_run_pds (two, end_of_file) ≡ summary printed
unfolding dry_run_pds add_all add started bump
dry_run_runs = refl

abbrev read_rows : List Row
read_rows = udp_row 8 ∷ udp_row 9 ∷ []

abbrev read_stats : PdStats
read_stats = record {
  rows = 2;
  ipv4 = 2;
  ipv6 = 0;
  agents = (codes "a1", 2) ∷ [];
  protocols = (17, 2) ∷ [];
  first_id = 8;
  last_id = 9;
}

dry_run_reads : dry_run_pds (read_rows, end_of_file) ≡ summary read_stats
unfolding dry_run_pds add_all add started bump
dry_run_reads = refl

dry_run_pds-IsSame_example : IsSame read_stats (summarize_pds read_rows)
dry_run_pds-IsSame_example =
    dry_run_pds-IsSame unmarshal_test parse_addr_test two_lines read_rows read_stats read_all_runs
      dry_run_reads
