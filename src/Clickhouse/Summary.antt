-- ===== src/Clickhouse/Summary.antt =====
-- The summaries of internal/clickhouse, as what their queries mean of the rows of a table. A minimum over no rows is
-- 0; the times are not printed here, and the approximate `uniq` of `SummarizeFDHs` is left out.
use fie_importer.Prelude.{
  ℕ, min, max, Bool, true, false, not, ◌&&◌, Option, none, some, List, [], ◌∷◌, map, ◌==◌,
  if◌then◌else◌, length, how_many, distinct_by,
}
use fie_importer.Prelude.Bytes.{Bytes}
use fie_importer.Prelude.Time.{Time, before}
use fie_importer.Net.{bytes_eq}
use fie_importer.Fies.Row
use fie_importer.Pds.Parse
use fie_importer.Agents.Agent.{Agent}
use fie_importer.Clickhouse.Fdhs.{Fdh}

abbrev pub number_eq : ℕ → ℕ → Bool
number_eq n m = n == m

abbrev pub min_of : List ℕ → ℕ
min_of [] = 0
min_of (n ∷ []) = n
min_of (n ∷ m ∷ ns) = min n (min_of (m ∷ ns))

abbrev pub max_of : List ℕ → ℕ
max_of [] = 0
max_of (n ∷ ns) = max n (max_of ns)

abbrev earlier : Time → Option Time → Option Time
earlier t none = some t
earlier t (some u) = some (if before u t then u else t)

abbrev later : Time → Option Time → Option Time
later t none = some t
later t (some u) = some (if before t u then u else t)

abbrev first_time : List Time → Option Time
first_time [] = none
first_time (t ∷ ts) = earlier t (first_time ts)

abbrev last_time : List Time → Option Time
last_time [] = none
last_time (t ∷ ts) = later t (last_time ts)

pub record Summary : Type 0 where
  pub rows : ℕ
  pub pds : ℕ
  pub first_capture : Option Time
  pub last_capture : Option Time

-- `Summarize`
unfoldable pub summarize : List Row.Row → Summary
summarize rs = record {
  rows = length rs;
  pds = length (distinct_by number_eq (map (λ r. r.pdid) rs));
  first_capture = first_time (map (λ r. r.capture_time) rs);
  last_capture = last_time (map (λ r. r.capture_time) rs);
}

pub record PdSummary : Type 0 where
  pub rows : ℕ
  pub agents : ℕ
  pub ipv4 : ℕ
  pub ipv6 : ℕ
  pub icmp : ℕ
  pub udp : ℕ
  pub icmpv6 : ℕ
  pub first_id : ℕ
  pub last_id : ℕ

-- `SummarizePDs`
unfoldable pub summarize_pds : List Parse.Row → PdSummary
summarize_pds rs = record {
  rows = length rs;
  agents = length (distinct_by bytes_eq (map (λ r. r.agent_id) rs));
  ipv4 = how_many (λ r. r.ip_version == 4) rs;
  ipv6 = how_many (λ r. r.ip_version == 6) rs;
  icmp = how_many (λ r. r.protocol == 1) rs;
  udp = how_many (λ r. r.protocol == 17) rs;
  icmpv6 = how_many (λ r. r.protocol == 58) rs;
  first_id = min_of (map (λ r. r.pdid) rs);
  last_id = max_of (map (λ r. r.pdid) rs);
}

pub record FdhSummary : Type 0 where
  pub rows : ℕ
  pub far_null : ℕ
  pub agents : ℕ

abbrev is_null : Option Bytes → Bool
is_null none = true
is_null (some b) = false

-- `SummarizeFDHs`
unfoldable pub summarize_fdhs : List Fdh → FdhSummary
summarize_fdhs rs = record {
  rows = length rs;
  far_null = how_many (λ r. is_null r.far_addr) rs;
  agents = length (distinct_by bytes_eq (map (λ r. r.agent_id) rs));
}

abbrev same_time : Time → Time → Bool
same_time t u = not (before t u) && not (before u t)

-- `CountSnapshot`; the column and the parameter both have microseconds.
unfoldable pub count_snapshot : Time → List Agent → ℕ
count_snapshot snapshot = how_many (λ a. same_time a.snapshot_time snapshot)
