-- ===== src/Agents/Agent.antt =====
-- `Agent`, and the parts of gcloud's instance and subnet lists that are used: `instance`, `subnet`.
use fie_importer.Prelude.{ℕ, Bool, false, ◌&&◌, Option, none, some, List, ℤ}
use fie_importer.Prelude.Time.{Time}
use fie_importer.Prelude.Bytes.{Bytes, codes}
use fie_importer.Net.{bytes_eq}

-- `VersionError`, by its messages
pub data LookupError : Type 0 where
  vm_is : Bytes → LookupError
  timed_out ssh_failed unexpected_output no_container : LookupError

pub record Agent : Type 0 where
  pub snapshot_time : Time
  pub agent_id : Bytes
  pub region : Bytes
  pub zone : Bytes
  pub network : Bytes
  pub subnetwork : Bytes
  pub machine_type : Bytes
  pub vm_status : Bytes
  pub vm_created_time : Time
  pub vm_last_start_time : Option Time
  pub internal_ipv4 : Option Bytes
  pub internal_ipv4_prefix : Option Bytes
  pub external_ipv4 : Option Bytes
  pub internal_ipv6 : Option Bytes
  pub external_ipv6 : Option Bytes
  pub external_ipv6_prefix : Option Bytes
  pub subnet_ipv6_prefix : Option Bytes
  pub agent_image : Option Bytes
  pub agent_image_digest : Option Bytes
  pub agent_container_state : Option Bytes
  pub agent_container_status : Option Bytes
  pub agent_container_started_time : Option Time
  pub agent_service_state : Option Bytes
  pub agent_service_restarts : Option ℕ
  pub version_error : Option LookupError

abbrev is_text : Option Bytes → Bytes → Bool
is_text none t = false
is_text (some s) t = bytes_eq s t

-- `Healthy`
unfoldable pub healthy : Agent → Bool
healthy a =
    is_text a.agent_service_state (codes "active")
    && is_text a.agent_container_state (codes "running")

pub record Ipv6AccessConfig : Type 0 where
  pub external_ipv6 : Bytes
  pub external_ipv6_prefix_length : ℤ

pub record NetworkInterface : Type 0 where
  pub network : Bytes
  pub subnetwork : Bytes
  pub network_ip : Bytes
  pub ipv6_address : Bytes
  -- the `natIP` of each access config
  pub access_configs : List Bytes
  pub ipv6_access_configs : List Ipv6AccessConfig

pub record Instance : Type 0 where
  pub name : Bytes
  pub zone : Bytes
  pub machine_type : Bytes
  pub status : Bytes
  pub creation_timestamp : Bytes
  pub last_start_timestamp : Bytes
  pub network_interfaces : List NetworkInterface

pub record Subnet : Type 0 where
  pub self_link : Bytes
  pub ip_cidr_range : Bytes
  pub external_ipv6_prefix : Bytes
  pub internal_ipv6_prefix : Bytes
