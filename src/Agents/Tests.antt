-- ===== src/Agents/Tests.antt =====
-- The list and the lookups at a concrete project.
use fie_importer.Prelude.{
  ◌≡◌, refl, Bool, Option, none, some, List, [], ◌∷◌, if◌then◌else◌, length, is_empty, take, ℤ, pos,
}
use fie_importer.Prelude.Time.{Time, seconds}
use fie_importer.Prelude.Bytes.{Bytes, codes}
use fie_importer.Prelude.Sort.{IsSorted, sort, insert}
use mathlib.Core.List.{Perm}
use fie_importer.Net.{Addr, v4}
use fie_importer.Text.Shell.{base, trim_slashes, after_last_slash}
use fie_importer.Text.Split.{before_last}
use fie_importer.Agents.Agent.{Agent, Instance}
use fie_importer.Agents.List.{
  good, truncate, text_le, with_interface, to_agent, to_agents, by_id, list,
}
use fie_importer.Agents.List.Sorted.{AreAgents, list-AreAgents}

abbrev parse_time : Bytes → Option Time
parse_time s = if is_empty s then none else some (seconds (length s))

abbrev parse_addr : Bytes → Option Addr
parse_addr s = if is_empty s then none else some (v4 (take 4 s))

abbrev parse_prefix : Bytes → Option Bytes
parse_prefix s = if is_empty s then none else some s

abbrev cidr : Bytes → ℤ → Option Bytes
cidr s bits = some s

abbrev instance_of : Bytes → Instance
instance_of name = record {
  name = name;
  zone = codes "zones/europe-west1-b";
  machine_type = codes "machineTypes/e2-small";
  status = codes "RUNNING";
  creation_timestamp = codes "2026";
  last_start_timestamp = [];
  network_interfaces = [];
}

abbrev made : Bytes → Agent
made name = record {
  snapshot_time = pos 5_000;
  agent_id = name;
  region = codes "europe-west1";
  zone = codes "europe-west1-b";
  network = [];
  subnetwork = [];
  machine_type = codes "e2-small";
  vm_status = codes "RUNNING";
  vm_created_time = seconds 4;
  vm_last_start_time = none;
  internal_ipv4 = none;
  internal_ipv4_prefix = none;
  external_ipv4 = none;
  internal_ipv6 = none;
  external_ipv6 = none;
  external_ipv6_prefix = none;
  subnet_ipv6_prefix = none;
  agent_image = none;
  agent_image_digest = none;
  agent_container_state = none;
  agent_container_status = none;
  agent_container_started_time = none;
  agent_service_state = none;
  agent_service_restarts = none;
  version_error = none;
}

abbrev instances : List Instance
instances = instance_of (codes "b") ∷ instance_of (codes "x") ∷ instance_of (codes "a") ∷ []

abbrev agents : List Agent
agents = made (codes "a") ∷ made (codes "b") ∷ []

listed_two :
    list parse_time parse_addr parse_prefix cidr
      (some (some instances))
      (some (some []))
      (codes "x" ∷ [])
      (pos 5_999)
    ≡ good agents
unfolding list to_agents to_agent with_interface truncate sort insert text_le before_last base
    trim_slashes after_last_slash
listed_two = refl

list-AreAgents_example :
    IsSorted by_id agents
    × ((found : List Agent) × AreAgents parse_time parse_addr parse_prefix cidr []
          (codes "x" ∷ [])
          (pos 5_999)
          instances
          found
        × Perm agents found)
list-AreAgents_example =
    list-AreAgents parse_time parse_addr parse_prefix cidr [] (codes "x" ∷ []) (pos 5_999) instances
      agents listed_two

region_cut : before_last b'-' (codes "a-b-c") ≡ codes "a-b"
unfolding before_last
region_cut = refl

abbrev parse_started : Bytes → Option (Time × Bool)
parse_started s = none

abbrev printed : Bytes
printed = codes "service=active\nimage=retina"
