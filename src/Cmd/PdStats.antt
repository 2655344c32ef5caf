-- ===== src/Cmd/PdStats.antt =====
-- `pdStats` and `dryRunPDs` of cmd/fie-importer/upload_pds.go. The maps are association lists with a
-- count of zero for a missing key. The counts are int64; a PD file has at most 2³² rows.
pub mod Counts
pub mod Keys
pub mod Same
use fie_importer.Prelude.{ℕ, ◌+◌, Bool, List, [], ◌∷◌, ◌==◌, if◌then◌else◌}
use fie_importer.Prelude.Bytes.{Bytes}
use fie_importer.Net.{bytes_eq}
use fie_importer.Pds.Parse.{Row}
use fie_importer.Pds.Reader.{Next, row, end_of_file, bad_line, ids_exceeded, read_failed}

-- `m[k]++`
unfoldable pub bump : {K : Type 0} → (K → K → Bool) → K → List (K × ℕ) → List (K × ℕ)
bump eq k [] = (k, 1) ∷ []
bump eq k ((x, n) ∷ m) = let rest = bump eq k m in if eq k x then (x, n + 1) ∷ m else (x, n) ∷ rest

-- `m[k]`
unfoldable pub count_of : {K : Type 0} → (K → K → Bool) → K → List (K × ℕ) → ℕ
count_of eq k [] = 0
count_of eq k ((x, n) ∷ m) = if eq k x then n else count_of eq k m

abbrev pub same_number : ℕ → ℕ → Bool
same_number n m = n == m

pub record PdStats : Type 0 where
  pub rows : ℕ
  pub ipv4 : ℕ
  pub ipv6 : ℕ
  pub agents : List (Bytes × ℕ)
  pub protocols : List (ℕ × ℕ)
  pub first_id : ℕ
  pub last_id : ℕ

abbrev pub no_stats : PdStats
no_stats = record {
  rows = 0;
  ipv4 = 0;
  ipv6 = 0;
  agents = [];
  protocols = [];
  first_id = 0;
  last_id = 0;
}

-- `if s.rows == 0 { … }`
unfoldable pub started : PdStats → Row → PdStats
started s r = if s.rows == 0 then record s { first_id = r.pdid; agents = []; protocols = [] } else s

unfoldable pub add : PdStats → Row → PdStats
unfolding started bump
add s r =
    let t = started s r in
    record t {
      rows = t.rows + 1;
      last_id = r.pdid;
      agents = bump bytes_eq r.agent_id t.agents;
      protocols = bump same_number r.protocol t.protocols;
      ipv4 = if r.ip_version == 4 then t.ipv4 + 1 else t.ipv4;
      ipv6 = if r.ip_version == 4 then t.ipv6 else t.ipv6 + 1;
    }

-- The loop over the rows that were read
unfoldable pub add_all : PdStats → List Row → PdStats
unfolding add
add_all s [] = s
add_all s (r ∷ rs) = add_all (add s r) rs

pub data DryRun : Type 0 where
  invalid_file empty_file : DryRun
  -- the summary that is printed
  summary : PdStats → DryRun

-- `dryRunPDs` on what reading the file to its end gives
unfoldable pub dry_run_pds : List Row × Next → DryRun
unfolding add_all
dry_run_pds (rs, end_of_file) =
    let stats = add_all no_stats rs in if stats.rows == 0 then empty_file else summary stats
dry_run_pds (rs, row r) = invalid_file
dry_run_pds (rs, bad_line n id e) = invalid_file
dry_run_pds (rs, ids_exceeded n) = invalid_file
dry_run_pds (rs, read_failed n) = invalid_file
