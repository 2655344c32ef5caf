-- ===== src/Clickhouse/Columns.antt =====
-- The tables of internal/clickhouse/clickhouse.go and the values that its inserts send, in the order of the
-- columns. `MergeTree` and the sorting keys are not modelled.
pub mod FieRows
pub mod PdRows
pub mod AgentRows
mod Tests
use Prim.Native.String.{String}
use fie_importer.Prelude.{
  ℕ, ◌^◌, ◌≡◌, Bool, true, false, ◌&&◌, ◌||◌, Option, none, some, List, [], ◌∷◌, ltb, ◌==◌,
  if◌then◌else◌, length, drop,
}
use fie_importer.Prelude.Bytes.{Bytes, codes}
use fie_importer.Prelude.Time.{Time}
use fie_importer.Net.{bytes_eq, is_mapped}
use fie_importer.Agents.Agent.{Agent, LookupError}

-- The types of the columns; `DateTime64(6, 'UTC')` is `date_time`.
pub data ColumnType : Type 0 where
  text_column ipv4_column ipv6_column date_time : ColumnType
  uint_column : ℕ → ColumnType
  nullable : ColumnType → ColumnType

abbrev pub TableColumns : Type 0
TableColumns = List (Bytes × ColumnType)

-- What a row holds, as the `any` that is passed on: a nil pointer, strings, unsigned integers of some width,
-- a time, an address, and the message of a failed lookup
pub data Value : Type 0 where
  nil : Value
  literal : String → Value
  text : Bytes → Value
  uint : ℕ → ℕ → Value
  instant : Time → Value
  address : Bytes → Value
  message : LookupError → Value

abbrev pub pointer {ℓ} : {A : Type ℓ} → (A → Value) → Option A → Value
pointer f none = nil
pointer f (some x) = f x

-- `FIETableDDL`
abbrev pub fie_columns : TableColumns
fie_columns =
    (codes "source_format", text_column)
    ∷ (codes "pd_id", uint_column 32)
    ∷ (codes "capture_time", date_time)
    ∷ (codes "fie_transit_s", nullable (uint_column 8))
    ∷ (codes "near_reply_addr", nullable ipv6_column)
    ∷ (codes "far_reply_addr", nullable ipv6_column)
    ∷ (codes "near_probe_sent_time", nullable date_time)
    ∷ (codes "near_reply_recv_time", nullable date_time)
    ∷ (codes "far_probe_sent_time", nullable date_time)
    ∷ (codes "far_reply_recv_time", nullable date_time)
    ∷ []

-- `PDTableDDL`
abbrev pub pd_columns : TableColumns
pd_columns =
    (codes "pd_id", uint_column 32)
    ∷ (codes "agent_id", text_column)
    ∷ (codes "ip_version", uint_column 8)
    ∷ (codes "protocol", uint_column 8)
    ∷ (codes "destination_addr", ipv6_column)
    ∷ (codes "near_ttl", uint_column 8)
    ∷ (codes "first_half_word", uint_column 16)
    ∷ (codes "second_half_word", uint_column 16)
    ∷ []

-- `AgentTableDDL`
abbrev pub agent_columns : TableColumns
agent_columns =
    (codes "snapshot_time", date_time)
    ∷ (codes "agent_id", text_column)
    ∷ (codes "region", text_column)
    ∷ (codes "zone", text_column)
    ∷ (codes "network", text_column)
    ∷ (codes "subnetwork", text_column)
    ∷ (codes "machine_type", text_column)
    ∷ (codes "vm_status", text_column)
    ∷ (codes "vm_created_time", date_time)
    ∷ (codes "vm_last_start_time", nullable date_time)
    ∷ (codes "internal_ipv4", nullable ipv4_column)
    ∷ (codes "internal_ipv4_prefix", nullable text_column)
    ∷ (codes "external_ipv4", nullable ipv4_column)
    ∷ (codes "internal_ipv6", nullable ipv6_column)
    ∷ (codes "external_ipv6", nullable ipv6_column)
    ∷ (codes "external_ipv6_prefix", nullable text_column)
    ∷ (codes "subnet_ipv6_prefix", nullable text_column)
    ∷ (codes "agent_image", nullable text_column)
    ∷ (codes "agent_image_digest", nullable text_column)
    ∷ (codes "agent_container_state", nullable text_column)
    ∷ (codes "agent_container_status", nullable text_column)
    ∷ (codes "agent_container_started_time", nullable date_time)
    ∷ (codes "agent_service_state", nullable text_column)
    ∷ (codes "agent_service_restarts", nullable (uint_column 32))
    ∷ (codes "version_error", nullable text_column)
    ∷ []

-- The function that `Insert` passes to `insert`
unfoldable pub fie_values : fie_importer.Fies.Row.Row → List Value
fie_values r =
    literal r.source_format
    ∷ uint 32 r.pdid
    ∷ instant r.capture_time
    ∷ pointer (uint 8) r.fie_transit_s
    ∷ pointer address r.near_reply_addr
    ∷ pointer address r.far_reply_addr
    ∷ pointer instant r.near_probe_sent_time
    ∷ pointer instant r.near_reply_recv_time
    ∷ pointer instant r.far_probe_sent_time
    ∷ pointer instant r.far_reply_recv_time
    ∷ []

-- That of `InsertPDs`
unfoldable pub pd_values : fie_importer.Pds.Parse.Row → List Value
pd_values r =
    uint 32 r.pdid
    ∷ text r.agent_id
    ∷ uint 8 r.ip_version
    ∷ uint 8 r.protocol
    ∷ address r.destination
    ∷ uint 8 r.near_ttl
    ∷ uint 16 r.first_half_word
    ∷ uint 16 r.second_half_word
    ∷ []

-- Go's `To4` of an address: 4 bytes, or an IPv4-mapped one of 16; `none` is nil.
abbrev pub to_4 : Bytes → Option Bytes
to_4 b =
    if length b == 4
    then some b
    else if length b == 16 && is_mapped b
    then some (drop 12 b)
    else none

unfoldable pub ipv4 : Option Bytes → Option Bytes
ipv4 none = none
ipv4 (some b) = to_4 b

-- That of `InsertAgents`
unfoldable pub agent_values : Agent → List Value
unfolding ipv4
agent_values a =
    instant a.snapshot_time
    ∷ text a.agent_id
    ∷ text a.region
    ∷ text a.zone
    ∷ text a.network
    ∷ text a.subnetwork
    ∷ text a.machine_type
    ∷ text a.vm_status
    ∷ instant a.vm_created_time
    ∷ pointer instant a.vm_last_start_time
    ∷ pointer address (ipv4 a.internal_ipv4)
    ∷ pointer text a.internal_ipv4_prefix
    ∷ pointer address (ipv4 a.external_ipv4)
    ∷ pointer address a.internal_ipv6
    ∷ pointer address a.external_ipv6
    ∷ pointer text a.external_ipv6_prefix
    ∷ pointer text a.subnet_ipv6_prefix
    ∷ pointer text a.agent_image
    ∷ pointer text a.agent_image_digest
    ∷ pointer text a.agent_container_state
    ∷ pointer text a.agent_container_status
    ∷ pointer instant a.agent_container_started_time
    ∷ pointer text a.agent_service_state
    ∷ pointer (uint 32) a.agent_service_restarts
    ∷ pointer message a.version_error
    ∷ []

abbrev pub is_nil : Value → Bool
is_nil v = elim v [ nil ↦ true | _ ↦ false ]

-- Which values a column takes
abbrev pub fits : ColumnType → Value → Bool
fits (nullable c) v = is_nil v || fits c v
fits text_column v = elim v [ literal s ↦ true | text s ↦ true | message e ↦ true | _ ↦ false ]
fits ipv4_column v = elim v [ address b ↦ length b == 4 | _ ↦ false ]
fits ipv6_column v = elim v [ address b ↦ length b == 16 | _ ↦ false ]
fits date_time v = elim v [ instant t ↦ true | _ ↦ false ]
fits (uint_column w) v = elim v [ uint u n ↦ u == w && ltb n (2 ^ w) | _ ↦ false ]

-- A row has one value for each column, and each fits.
abbrev pub RowFits : TableColumns → List Value → Type 0
RowFits [] [] = Unit
RowFits [] (v ∷ vs) = ⊥
RowFits (c ∷ cs) [] = ⊥
RowFits (c ∷ cs) (v ∷ vs) = (fits c.1 v ≡ true) × RowFits cs vs

-- The first value fits, and the others do.
infixr 4 ◌⊗◌
abbrev pub ◌⊗◌ {ℓ} : {A B : Type ℓ} → A → B → A × B
a ⊗ b = (a, b)

-- The value in the column of a name
abbrev pub in_column : Bytes → TableColumns → List Value → Value
in_column name [] vs = nil
in_column name (c ∷ cs) [] = nil
in_column name (c ∷ cs) (v ∷ vs) = if bytes_eq name c.0 then v else in_column name cs vs
