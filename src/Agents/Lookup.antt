-- ===== src/Agents/Lookup.antt =====
-- `LookupImage`: what the ssh command printed, as fields of the agent. The command's run under its
-- timeout is `reply`, `none` where gcloud failed, and `late`, whether the deadline passed.
-- `strings.TrimSpace` is modelled on ASCII space.
pub mod Fields
use fie_importer.Prelude.{
  ◌-◌, ◌^◌, Bool, not, Option, none, some, List, [], ◌∷◌, if◌then◌else◌, is_empty,
}
use fie_importer.Prelude.Time.{Time}
use fie_importer.Prelude.Bytes.{Bytes, codes}
use fie_importer.Net.{bytes_eq}
use fie_importer.Pds.Reader.{trim_space}
use fie_importer.Text.Decimal.{parse_uint}
use fie_importer.Text.Split.{split, cut}
use fie_importer.Agents.Agent.{
  Agent, LookupError, vm_is, timed_out, ssh_failed, unexpected_output, no_container,
}
use fie_importer.Agents.List.{truncate}

-- `fields`, with what was set last in front
abbrev pub Fields : Type 0
Fields = List (Bytes × Bytes)

abbrev set_field : Option (Bytes × Bytes) → Fields → Fields
set_field none fields = fields
set_field (some (k, v)) fields = (k, trim_space v) ∷ fields

unfoldable pub read_fields : List Bytes → Fields → Fields
read_fields [] fields = fields
read_fields (line ∷ lines) fields =
    read_fields lines (set_field (cut b'=' (trim_space line)) fields)

-- `v, ok := fields[k]`
unfoldable pub field? : Bytes → Fields → Option Bytes
field? k [] = none
field? k ((x, v) ∷ fields) = if bytes_eq k x then some v else field? k fields

-- `fields[k]`: the empty text for a missing key
unfoldable pub field : Bytes → Fields → Bytes
unfolding field?
field k fields = elim (field? k fields) [ none ↦ [] | some v ↦ v ]

-- `nonEmpty`
unfoldable pub non_empty : Bytes → Option Bytes
non_empty s = if is_empty s then none else some s

-- The first digest: behind the `@` of the first part that has one
unfoldable pub first_digest : List Bytes → Option Bytes
first_digest [] = none
first_digest (d ∷ ds) = elim (cut b'@' d) [
  | none ↦ first_digest ds
  | some (image, digest) ↦ some digest
]

abbrev failed : LookupError → Agent → Agent
failed e a = record a { version_error = some e }

module _ (parse_started : Bytes → Option (Time × Bool)) where
  -- The container's start, if it parses and is not in year 1; `parse_started` also tells whether
  -- the year is later than that.
  unfoldable pub started_time : Bytes → Option Time
  started_time s = elim (parse_started s) [
    | none ↦ none
    | some (t, later) ↦ if later then some (truncate t) else none
  ]

  -- The fields of the service and the container.
  unfoldable pub with_status : Agent → Fields → Agent
  unfolding non_empty field started_time
  with_status a fields = record a {
    agent_service_state = non_empty (field (codes "service") fields);
    agent_service_restarts = elim (parse_uint (2 ^ 32 - 1) (field (codes "restarts") fields)) [
      | none ↦ a.agent_service_restarts
      | some n ↦ some n
    ];
    agent_container_state = non_empty (field (codes "state") fields);
    agent_container_status = non_empty (field (codes "status") fields);
    agent_container_started_time = elim (started_time (field (codes "started") fields)) [
      | none ↦ a.agent_container_started_time
      | some t ↦ some t
    ];
    agent_image = non_empty (field (codes "image") fields);
  }

  -- The digest, or the error where there is no image.
  unfoldable pub with_digest : Agent → Option Bytes → Option Bytes → Agent
  with_digest a none digest = failed no_container a
  with_digest a (some image) none = a
  with_digest a (some image) (some digest) = record a { agent_image_digest = some digest }

  -- `fields` behind the test for the service line, whose value is given first
  unfoldable pub with_fields : Option Bytes → Agent → Fields → Agent
  unfolding with_status with_digest first_digest field
  with_fields none a fields = failed unexpected_output a
  with_fields (some service) a fields =
      let b = with_status a fields in
      with_digest b b.agent_image (first_digest (split b',' (field (codes "digests") fields)))

  -- What follows the call of ssh
  unfoldable pub with_reply : Option Bytes → Agent → Agent
  unfolding with_fields read_fields field?
  with_reply none a = failed ssh_failed a
  with_reply (some out) a =
      let fields = read_fields (split b'\n' out) [] in
      with_fields (field? (codes "service") fields) a fields

  unfoldable pub lookup_image : Agent → Option Bytes → Bool → Agent
  unfolding with_reply
  lookup_image a reply late =
      if not (bytes_eq a.vm_status (codes "RUNNING"))
      then failed (vm_is a.vm_status) a
      else if late
      then failed timed_out a
      else with_reply reply a
