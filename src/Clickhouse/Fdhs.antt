-- ===== src/Clickhouse/Fdhs.antt =====
-- internal/clickhouse/fdhs.go: what `FDHInsertSQL` selects and what `CountFDHSource` counts, as the
-- server reads these statements.
pub mod Count
use fie_importer.Prelude.{
  ℕ, suc, ◌+◌, Bool, true, false, not, ◌||◌, Option, none, some, List, [], ◌∷◌, ◌++◌, ◌==◌,
  if◌then◌else◌, replicate,
}
use fie_importer.Prelude.Time.{Time}
use fie_importer.Prelude.Bytes.{Bytes}
use fie_importer.Net.{bytes_eq}
use fie_importer.Fies.Row.{mapped_prefix}
use fie_importer.Fies.Row
use fie_importer.Pds.Parse

-- A row of the FDH table
pub record Fdh : Type 0 where
  pub agent_id : Bytes
  pub ip_version : ℕ
  pub near_addr : Bytes
  pub destination_addr : Bytes
  pub capture_time : Time
  pub pd_id : ℕ
  pub near_ttl : ℕ
  pub far_addr : Option Bytes

-- `IN zeroAddrs`: toIPv6('::'), toIPv6('::ffff:0.0.0.0')
abbrev pub is_zero_addr : Bytes → Bool
is_zero_addr a = bytes_eq a (replicate 16 0) || bytes_eq a (mapped_prefix ++ replicate 4 0)

-- `nearPresent` for an address that may be NULL
abbrev pub is_present : Option Bytes → Bool
is_present none = false
is_present (some a) = not (is_zero_addr a)

-- `if(a IN zeroAddrs, NULL, a)`
unfoldable pub null_if_zero : Option Bytes → Option Bytes
null_if_zero none = none
null_if_zero (some a) = if is_zero_addr a then none else some a

-- `SELECT … FROM f INNER JOIN p ON f.pd_id = p.pd_id` for one FIE whose near address is `near`.
unfoldable pub join_pds : Row.Row → Bytes → List Parse.Row → List Fdh
unfolding null_if_zero
join_pds f near [] = []
join_pds f near (p ∷ ps) =
    let rest = join_pds f near ps in
    if f.pdid == p.pdid
    then record {
      agent_id = p.agent_id;
      ip_version = p.ip_version;
      near_addr = near;
      destination_addr = p.destination;
      capture_time = f.capture_time;
      pd_id = f.pdid;
      near_ttl = p.near_ttl;
      far_addr = null_if_zero f.far_reply_addr;
    }
      ∷ rest
    else rest

-- The rows of one FIE: none without a near reply.
unfoldable pub fdhs_of : Row.Row → List Parse.Row → List Fdh
unfolding join_pds
fdhs_of f ps = elim f.near_reply_addr [
  | none ↦ []
  | some near ↦ if is_zero_addr near then [] else join_pds f near ps
]

unfoldable pub fdh_rows : List Row.Row → List Parse.Row → List Fdh
unfolding fdhs_of
fdh_rows [] ps = []
fdh_rows (f ∷ fs) ps = fdhs_of f ps ++ fdh_rows fs ps

abbrev pub has_pd : ℕ → List Parse.Row → Bool
has_pd id [] = false
has_pd id (p ∷ ps) = id == p.pdid || has_pd id ps

pub record FdhSource : Type 0 where
  pub near_fies : ℕ
  pub missing_pd : ℕ

abbrev pub one_if : Bool → ℕ
one_if true = 1
one_if false = 0

-- `count(), countIf(ifNull(p.found, 0) = 0)` over the `LEFT ANY JOIN`
unfoldable pub count_fdh_source : List Row.Row → List Parse.Row → FdhSource
count_fdh_source [] ps = record { near_fies = 0; missing_pd = 0 }
count_fdh_source (f ∷ fs) ps =
    let rest = count_fdh_source fs ps in
    if is_present f.near_reply_addr
    then record {
      near_fies = suc rest.near_fies;
      missing_pd = one_if (not (has_pd f.pdid ps)) + rest.missing_pd;
    }
    else rest

-- A row of any of the three tables
pub data Stored : Type 0 where
  fie : Row.Row → Stored
  pd : Parse.Row → Stored
  fdh : Fdh → Stored

abbrev pub fies_in : List Stored → List Row.Row
fies_in [] = []
fies_in (fie f ∷ rows) = f ∷ fies_in rows
fies_in (pd p ∷ rows) = fies_in rows
fies_in (fdh h ∷ rows) = fies_in rows

abbrev pub pds_in : List Stored → List Parse.Row
pds_in [] = []
pds_in (fie f ∷ rows) = pds_in rows
pds_in (pd p ∷ rows) = p ∷ pds_in rows
pds_in (fdh h ∷ rows) = pds_in rows
