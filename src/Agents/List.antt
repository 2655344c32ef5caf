-- ===== src/Agents/List.antt =====
-- `toAgent` and `List`. `time.Parse`, `netip.ParseAddr`, `json.Unmarshal` of the two lists, and
-- `netip.ParsePrefix` with `Masked().String()` are arguments, `none` for their errors.
pub mod Sorted
use fie_importer.Prelude.{
  ◌+◌, ◌-◌, ◌*◌, ◌/◌, Bool, true, false, ◌||◌, Option, none, some, List, [], ◌∷◌, ltb, ◌==◌,
  if◌then◌else◌, ℤ, pos, negsuc, ltb_ℤ,
}
use fie_importer.Prelude.Time.{Time}
use fie_importer.Prelude.Bytes.{Bytes}
use fie_importer.Prelude.Sort.{sort}
use fie_importer.Net.{Addr, unmap, as_slice, bytes_eq}
use fie_importer.Text.Shell.{base}
use fie_importer.Text.Split.{before_last}
use fie_importer.Agents.Agent.{Agent, Instance, NetworkInterface, Ipv6AccessConfig, Subnet}

pub data ListError : Type 0 where
  gcloud_failed cannot_parse : ListError
  -- "%s: invalid creation time %q"
  bad_creation_time : Bytes → ListError

pub data Listed {ℓ} (A : Type ℓ) : Type ℓ where
  good : A → Listed A
  bad : ListError → Listed A

-- `t.UTC().Truncate(time.Microsecond)`: down to a multiple of 1000 nanoseconds
unfoldable pub truncate : Time → Time
truncate (pos n) = pos (n / 1000 * 1000)
truncate (negsuc n) = negsuc ((n / 1000 + 1) * 1000 - 1)

-- `strings.Compare(a, b) <= 0`
unfoldable pub text_le : Bytes → Bytes → Bool
text_le [] t = true
text_le (c ∷ s) [] = false
text_le (c ∷ s) (d ∷ t) = let rest = text_le s t in if c == d then rest else ltb c d

-- `bySelfLink[link]`: the last subnet of that name
unfoldable pub subnet_of : Bytes → List Subnet → Option Subnet
subnet_of link [] = none
subnet_of link (s ∷ subnets) = elim (subnet_of link subnets) [
  | some later ↦ some later
  | none ↦ if bytes_eq link s.self_link then some s else none
]

-- `slices.Contains(exclude, name)`
abbrev pub is_excluded : List Bytes → Bytes → Bool
is_excluded [] name = false
is_excluded (x ∷ exclude) name = bytes_eq name x || is_excluded exclude name

abbrev onto : Listed Agent → Listed (List Agent) → Listed (List Agent)
onto (bad e) agents = bad e
onto (good a) (bad e) = bad e
onto (good a) (good agents) = good (a ∷ agents)

abbrev pub by_id : Agent → Agent → Bool
by_id a b = text_le a.agent_id b.agent_id

abbrev sorted : Listed (List Agent) → Listed (List Agent)
sorted (bad e) = bad e
sorted (good agents) = good (sort by_id agents)

module _ (parse_time : Bytes → Option Time) (parse_addr : Bytes → Option Addr)
    (parse_prefix : Bytes → Option Bytes) (cidr : Bytes → ℤ → Option Bytes) where
  -- `ip`
  unfoldable pub ip : Bytes → Option Bytes
  ip s = elim (parse_addr s) [ none ↦ none | some a ↦ some (as_slice (unmap a)) ]

  -- `if len(nic.AccessConfigs) > 0`
  unfoldable pub external_ipv4_of : List Bytes → Option Bytes
  unfolding ip
  external_ipv4_of [] = none
  external_ipv4_of (nat ∷ rest) = ip nat

  -- The address of the first config, and its prefix where the length is positive.
  unfoldable pub external_ipv6_of : List Ipv6AccessConfig → Option Bytes × Option Bytes
  unfolding ip
  external_ipv6_of [] = (none, none)
  external_ipv6_of (c ∷ rest) = (
    ip c.external_ipv6,
    elim (ip c.external_ipv6) [
      | none ↦ none
      | some a ↦
          if ltb_ℤ (pos 0) c.external_ipv6_prefix_length
          then cidr c.external_ipv6 c.external_ipv6_prefix_length
          else none
    ],
  )

  -- The prefixes of the subnet: IPv4, and external or else internal IPv6.
  unfoldable pub prefixes_of : Option Subnet → Option Bytes × Option Bytes
  prefixes_of none = (none, none)
  prefixes_of (some s) = (
    parse_prefix s.ip_cidr_range,
    elim (parse_prefix s.external_ipv6_prefix) [
      | some p ↦ some p
      | none ↦ parse_prefix s.internal_ipv6_prefix
    ],
  )

  -- The fields of the first network interface.
  unfoldable pub with_interface : Agent → List NetworkInterface → List Subnet → Agent
  unfolding ip external_ipv4_of external_ipv6_of prefixes_of subnet_of
  with_interface a [] subnets = a
  with_interface a (nic ∷ rest) subnets =
      let (v6, v6_prefix) = external_ipv6_of nic.ipv6_access_configs in
      let (v4_range, subnet_v6) = prefixes_of (subnet_of nic.subnetwork subnets) in
      record a {
        network = base nic.network;
        subnetwork = base nic.subnetwork;
        internal_ipv4 = ip nic.network_ip;
        internal_ipv6 = ip nic.ipv6_address;
        external_ipv4 = external_ipv4_of nic.access_configs;
        external_ipv6 = v6;
        external_ipv6_prefix = v6_prefix;
        internal_ipv4_prefix = v4_range;
        subnet_ipv6_prefix = subnet_v6;
      }

  unfoldable pub to_agent : Instance → List Subnet → Time → Listed Agent
  unfolding truncate with_interface
  to_agent i subnets now = elim (parse_time i.creation_timestamp) [
    | none ↦ bad (bad_creation_time i.name)
    | some created ↦
        let zone = base i.zone in
        let a : Agent = record {
          snapshot_time = truncate now;
          agent_id = i.name;
          region = before_last b'-' zone;
          zone = zone;
          network = [];
          subnetwork = [];
          machine_type = base i.machine_type;
          vm_status = i.status;
          vm_created_time = created;
          vm_last_start_time = parse_time i.last_start_timestamp;
          internal_ipv4 = none;
          internal_ipv4_prefix = none;
          external_ipv4 = none;
          internal_ipv6 = none;
          external_ipv6 = none;
          external_ipv6_prefix = none;
          subnet_ipv6_prefix = none;
          agent_image = none;
          agent_image_digest = none;
          agent_container_state = none;
          agent_container_status = none;
          agent_container_started_time = none;
          agent_service_state = none;
          agent_service_restarts = none;
          version_error = none;
        } in
        good (with_interface a i.network_interfaces subnets)
  ]

  -- The loop over the instances
  unfoldable pub to_agents : List Instance → List Subnet → List Bytes → Time → Listed (List Agent)
  unfolding to_agent
  to_agents [] subnets exclude now = good []
  to_agents (i ∷ instances) subnets exclude now =
      let rest = to_agents instances subnets exclude now in
      if is_excluded exclude i.name then rest else onto (to_agent i subnets now) rest

  -- `List`: each list is what gcloud printed, `none` where gcloud failed, and then what it parsed to.
  unfoldable pub list :
      Option (Option (List Instance))
      → Option (Option (List Subnet))
      → List Bytes
      → Time
      → Listed (List Agent)
  unfolding to_agents sort text_le
  list none subnets exclude now = bad gcloud_failed
  list (some none) subnets exclude now = bad cannot_parse
  list (some (some instances)) none exclude now = bad gcloud_failed
  list (some (some instances)) (some none) exclude now = bad cannot_parse
  list (some (some instances)) (some (some subnets)) exclude now =
      sorted (to_agents instances subnets exclude now)
