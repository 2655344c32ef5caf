-- ===== src/Clickhouse/Columns/AgentRows.antt =====
-- The values of an agent's row.
use fie_importer.Prelude.{
  ℕ, ◌^◌, ◌<◌, ◌≡◌, refl, inl, inr, true, ◌&&◌, Option, none, some, List, arith, ◌==◌, Bool-cases,
  length, length-drop,
}
use fie_importer.Prelude.Bytes.{Bytes, codes}
use fie_importer.Agents.Agent.{Agent, LookupError}
use fie_importer.Net.{is_mapped}
use fie_importer.Clickhouse.Columns.{
  Value, text, uint, instant, address, message, pointer, agent_columns, agent_values, to_4, ipv4,
  fits, RowFits, in_column, ◌⊗◌, nullable, ipv4_column, text_column,
}
use fie_importer.Clickhouse.Columns.FieRows.{fits-address, fits-uint, fits-instant}

fits-ipv4 : (b : Option Bytes) → fits (nullable ipv4_column) (pointer address (ipv4 b)) ≡ true
unfolding ipv4
fits-ipv4 none = refl
fits-ipv4 (some b) = elim (Bool-cases (length b == 4)) [
  | inl e ↦ rw (to_4, e) e
  | inr e ↦ elim (Bool-cases (length b == 16 && is_mapped b)) [
    | inl m ↦ let size = length-drop 12 b in rw (to_4, e, m) (ground arith)
    | inr m ↦ rw (to_4, e, m) refl
  ]
]

fits-text : (t : Option Bytes) → fits (nullable text_column) (pointer text t) ≡ true
fits-text none = refl
fits-text (some t) = refl

fits-message : (e : Option LookupError) → fits (nullable text_column) (pointer message e) ≡ true
fits-message none = refl
fits-message (some e) = refl

-- The addresses and the number of restarts as the parsers of `net` and `strconv` give them: an address of
-- IPv6 has 16 bytes, the number 32 bits.
pub record HasWidths (a : Agent) : Type 0 where
  pub internal_ipv6 : (v : Bytes) → a.internal_ipv6 ≡ some v → length v ≡ 16
  pub external_ipv6 : (v : Bytes) → a.external_ipv6 ≡ some v → length v ≡ 16
  pub restarts : (k : ℕ) → a.agent_service_restarts ≡ some k → k < 2 ^ 32

-- Each field of the agent stands in the column of its name; the addresses of IPv4 in the form of 4 bytes.
pub record IsAgentRow (a : Agent) (vs : List Value) : Type 0 where
  pub snapshot_time : in_column (codes "snapshot_time") agent_columns vs ≡ instant a.snapshot_time
  pub agent_id : in_column (codes "agent_id") agent_columns vs ≡ text a.agent_id
  pub region : in_column (codes "region") agent_columns vs ≡ text a.region
  pub zone : in_column (codes "zone") agent_columns vs ≡ text a.zone
  pub network : in_column (codes "network") agent_columns vs ≡ text a.network
  pub subnetwork : in_column (codes "subnetwork") agent_columns vs ≡ text a.subnetwork
  pub machine_type : in_column (codes "machine_type") agent_columns vs ≡ text a.machine_type
  pub vm_status : in_column (codes "vm_status") agent_columns vs ≡ text a.vm_status
  pub vm_created_time :
      in_column (codes "vm_created_time") agent_columns vs ≡ instant a.vm_created_time
  pub vm_last_start_time :
      in_column (codes "vm_last_start_time") agent_columns vs ≡ pointer instant a.vm_last_start_time
  pub internal_ipv4 :
      in_column (codes "internal_ipv4") agent_columns vs ≡ pointer address (ipv4 a.internal_ipv4)
  pub internal_ipv4_prefix :
      in_column (codes "internal_ipv4_prefix") agent_columns vs
      ≡ pointer text a.internal_ipv4_prefix
  pub external_ipv4 :
      in_column (codes "external_ipv4") agent_columns vs ≡ pointer address (ipv4 a.external_ipv4)
  pub internal_ipv6 :
      in_column (codes "internal_ipv6") agent_columns vs ≡ pointer address a.internal_ipv6
  pub external_ipv6 :
      in_column (codes "external_ipv6") agent_columns vs ≡ pointer address a.external_ipv6
  pub external_ipv6_prefix :
      in_column (codes "external_ipv6_prefix") agent_columns vs
      ≡ pointer text a.external_ipv6_prefix
  pub subnet_ipv6_prefix :
      in_column (codes "subnet_ipv6_prefix") agent_columns vs ≡ pointer text a.subnet_ipv6_prefix
  pub agent_image : in_column (codes "agent_image") agent_columns vs ≡ pointer text a.agent_image
  pub agent_image_digest :
      in_column (codes "agent_image_digest") agent_columns vs ≡ pointer text a.agent_image_digest
  pub agent_container_state :
      in_column (codes "agent_container_state") agent_columns vs
      ≡ pointer text a.agent_container_state
  pub agent_container_status :
      in_column (codes "agent_container_status") agent_columns vs
      ≡ pointer text a.agent_container_status
  pub agent_container_started_time :
      in_column (codes "agent_container_started_time") agent_columns vs
      ≡ pointer instant a.agent_container_started_time
  pub agent_service_state :
      in_column (codes "agent_service_state") agent_columns vs ≡ pointer text a.agent_service_state
  pub agent_service_restarts :
      in_column (codes "agent_service_restarts") agent_columns vs
      ≡ pointer (uint 32) a.agent_service_restarts
  pub version_error :
      in_column (codes "version_error") agent_columns vs ≡ pointer message a.version_error

agent_values-IsAgentRow : (a : Agent) → IsAgentRow a (agent_values a)
unfolding agent_values
agent_values-IsAgentRow a = record {
  snapshot_time = refl;
  agent_id = refl;
  region = refl;
  zone = refl;
  network = refl;
  subnetwork = refl;
  machine_type = refl;
  vm_status = refl;
  vm_created_time = refl;
  vm_last_start_time = refl;
  internal_ipv4 = refl;
  internal_ipv4_prefix = refl;
  external_ipv4 = refl;
  internal_ipv6 = refl;
  external_ipv6 = refl;
  external_ipv6_prefix = refl;
  subnet_ipv6_prefix = refl;
  agent_image = refl;
  agent_image_digest = refl;
  agent_container_state = refl;
  agent_container_status = refl;
  agent_container_started_time = refl;
  agent_service_state = refl;
  agent_service_restarts = refl;
  version_error = refl;
}

-- Every agent whose IPv6 addresses have 16 bytes and whose number of restarts has 32 bits is inserted with one
-- value for each column of the agent table, in the column of its name, and each value fits its column: an IPv4
-- address is sent in its 4 bytes, and as NULL where it has no such form.
pub agent_values-RowFits :
    (a : Agent)
    → HasWidths a
    → RowFits agent_columns (agent_values a) × IsAgentRow a (agent_values a)
unfolding agent_values
agent_values-RowFits a addrs = (
  refl
      ⊗ refl
      ⊗ refl
      ⊗ refl
      ⊗ refl
      ⊗ refl
      ⊗ refl
      ⊗ refl
      ⊗ refl
      ⊗ fits-instant a.vm_last_start_time
      ⊗ fits-ipv4 a.internal_ipv4
      ⊗ fits-text a.internal_ipv4_prefix
      ⊗ fits-ipv4 a.external_ipv4
      ⊗ fits-address a.internal_ipv6 addrs.internal_ipv6
      ⊗ fits-address a.external_ipv6 addrs.external_ipv6
      ⊗ fits-text a.external_ipv6_prefix
      ⊗ fits-text a.subnet_ipv6_prefix
      ⊗ fits-text a.agent_image
      ⊗ fits-text a.agent_image_digest
      ⊗ fits-text a.agent_container_state
      ⊗ fits-text a.agent_container_status
      ⊗ fits-instant a.agent_container_started_time
      ⊗ fits-text a.agent_service_state
      ⊗ fits-uint 32 a.agent_service_restarts addrs.restarts
      ⊗ fits-message a.version_error
      ⊗ tt,
  agent_values-IsAgentRow a,
)
