-- ===== src/Agents/Lookup/Fields.antt =====
-- When a lookup succeeds, and what it leaves alone.
use fie_importer.Prelude.{
  ◌≡◌, refl, ◌≢◌, inl, inr, Bool, true, false, Option, none, some, [], Bool-cases,
}
use fie_importer.Prelude.Time.{Time}
use fie_importer.Prelude.Bytes.{Bytes, codes}
use fie_importer.Net.{bytes_eq}
use fie_importer.Text.Split.{split}
use fie_importer.Agents.Agent.{Agent}
use fie_importer.Agents.Lookup.{
  Fields, read_fields, field?, field, with_status, with_digest, with_fields, with_reply,
  lookup_image,
}

-- The part of an agent that `List` fills.
abbrev pub vm_part : Agent → Agent
vm_part a = record a {
  agent_image = none;
  agent_image_digest = none;
  agent_container_state = none;
  agent_container_status = none;
  agent_container_started_time = none;
  agent_service_state = none;
  agent_service_restarts = none;
  version_error = none;
}

-- The fields tell of an agent: there is a service line, and an image that is not empty.
abbrev pub HasImage : Fields → Type 0
HasImage fields = (field? (codes "service") fields ≢ none) × (field (codes "image") fields ≢ [])

-- A lookup that reads an image.
abbrev pub IsRead : Agent → Option Bytes → Bool → Type 0
IsRead a reply late =
    (bytes_eq a.vm_status (codes "RUNNING") ≡ true)
    × (late ≡ false)
    × ((out : Bytes) × (reply ≡ some out) × HasImage (read_fields (split b'\n' out) []))

module _ (parse_started : Bytes → Option (Time × Bool)) where
  with_digest-vm_part :
      (a : Agent) (image digest : Option Bytes)
      → vm_part (with_digest parse_started a image digest) ≡ vm_part a
  unfolding with_digest
  with_digest-vm_part a none digest = refl
  with_digest-vm_part a (some image) none = refl
  with_digest-vm_part a (some image) (some digest) = refl

  with_fields-vm_part :
      (service : Option Bytes) (a : Agent) (fields : Fields)
      → vm_part (with_fields parse_started service a fields) ≡ vm_part a
  unfolding with_fields with_status
  with_fields-vm_part none a fields = refl
  with_fields-vm_part (some service) a fields =
      with_digest-vm_part (with_status parse_started a fields) _ _

  with_reply-vm_part :
      (reply : Option Bytes) (a : Agent) → vm_part (with_reply parse_started reply a) ≡ vm_part a
  unfolding with_reply
  with_reply-vm_part none a = refl
  with_reply-vm_part (some out) a =
      let fields = read_fields (split b'\n' out) [] in
      with_fields-vm_part (field? (codes "service") fields) a fields

  -- A lookup changes nothing of what `List` says of the VM, whatever ssh printed.
  pub lookup_image-vm_part :
      (a : Agent) (reply : Option Bytes) (late : Bool)
      → vm_part (lookup_image parse_started a reply late) ≡ vm_part a
  unfolding lookup_image
  lookup_image-vm_part a reply late = elim (Bool-cases (bytes_eq a.vm_status (codes "RUNNING"))) [
    | inr e ↦ rw e refl
    | inl e ↦ elim (Bool-cases late) [
      | inl f ↦ rw (e, f) refl
      | inr f ↦ rw (e, f) (with_reply-vm_part reply a)
    ]
  ]
