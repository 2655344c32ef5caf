-- ===== src/Streams/Full.antt =====
-- deprecated/internal/streams/full_fie_stream.go and probing_directive_stream.go: a capture row, its probing
-- directive and the address of its agent as one FIE. Directives and addresses come as lists that were read
-- before; `json.Unmarshal` is taken as arguments.
pub mod Directives
pub mod Deltas
pub mod Sources
pub mod Times
use fie_importer.Prelude.{
  ℕ, ◌+◌, ◌*◌, ◌/◌, ◌%◌, ◌^◌, Option, none, some, List, [], ◌∷◌, ◌++◌, ◌==◌, if◌then◌else◌, ℤ, pos,
  ◌+ℤ◌, ◌-ℤ◌,
}
use fie_importer.Prelude.Bytes.{Bytes, codes}
use fie_importer.Prelude.Time.{Time, seconds}
use fie_importer.Net.{bytes_eq}
use fie_importer.Streams.Connections.{
  ConnectionStream, Answer, no_events, not_yet, disconnected, connected, address_at,
}
use fie_importer.Streams.Compressed.{Columns, CompressedFie, next_number}

-- The fields of retina's `ProbingDirective` that the stream reads
pub record Directive : Type 0 where
  pub directive_id : ℕ
  pub agent_id : Bytes
  pub ip_version : ℕ
  pub protocol : ℕ
  pub destination : Bytes
  pub near_ttl : ℕ

module _ (envelope_type : Bytes → Option Bytes) (decode_pds : Bytes → Option (List Directive)) where
  abbrev onto_events : Option (List Directive) → Option (List Directive) → Option (List Directive)
  onto_events none rest = none
  onto_events (some pds) none = none
  onto_events (some pds) (some rest) = some (pds ++ rest)

  abbrev events_of_type : Bytes → Bytes → Option (List Directive) → Option (List Directive)
  events_of_type type raw rest =
      if bytes_eq type (codes "PDBulkInsertionEvent")
      then onto_events (decode_pds raw) rest
      else rest

  abbrev raw_event : Bytes → Option Bytes → Option (List Directive) → Option (List Directive)
  raw_event raw none rest = none
  raw_event raw (some type) rest = events_of_type type raw rest

  -- `NewProbingDirectiveStream`: an error of the stream is `none`
  unfoldable pub directive_stream : List (Option Bytes) → Option (List Directive)
  directive_stream [] = some []
  directive_stream (none ∷ raws) = none
  directive_stream (some raw ∷ raws) = raw_event raw (envelope_type raw) (directive_stream raws)

-- `pdByID`, a map
abbrev pub Directives : Type 0
Directives = List (ℕ × Directive)

-- `s.pdByID[id]`
unfoldable pub find_directive : ℕ → Directives → Option Directive
find_directive id [] = none
find_directive id ((i, pd) ∷ m) = if id == i then some pd else find_directive id m

abbrev pub added : Directive → Directives → Option Directive → Option Directives
added pd m (some other) = none
added pd m none = some ((pd.directive_id, pd) ∷ m)

abbrev pub or_stop : Option Directives → (Directives → Option Directives) → Option Directives
or_stop none f = none
or_stop (some m) f = f m

-- The loop of `NewFullFIEStreamWhere`, which refuses a second directive of one ID
unfoldable pub directives_by_id : List Directive → Directives → Option Directives
unfolding find_directive
directives_by_id [] m = some m
directives_by_id (pd ∷ pds) m =
    or_stop (added pd m (find_directive pd.directive_id m)) (λ m. directives_by_id pds m)

-- retina's `Info`
pub record Info : Type 0 where
  pub probe_ttl : ℕ
  pub reply_address : Bytes
  pub sent_timestamp : Time
  pub received_timestamp : Time

-- `api.FullFIE`, with the `ForwardingInfoElement` in it
pub record FullFie : Type 0 where
  pub agent_id : Bytes
  pub directive_id : ℕ
  pub ip_version : ℕ
  pub protocol : ℕ
  pub source_address : Bytes
  pub destination_address : Bytes
  pub production_timestamp : Time
  pub near_info : Option Info
  pub far_info : Option Info
  pub sequence_number : ℕ
  pub capture_time : Time

-- `(row.TimeDeltas >> (6 * i)) & 0x3f`
unfoldable pub delta : ℕ → ℕ → ℕ
delta time_deltas i = time_deltas / 2 ^ (6 * i) % 2 ^ 6

-- `decodeTimestamp`
unfoldable pub decode_timestamp : Time → ℕ → Time
decode_timestamp capture d = if d == 63 then pos 0 else capture -ℤ seconds d

abbrev pub capture_time_of : CompressedFie → Time
capture_time_of row = row.capture_base_time +ℤ seconds row.columns.capture_second

-- The answer for `len(address) > 0`
abbrev pub info : ℕ → Bytes → Time → Time → Option Info
info ttl [] sent received = none
info ttl (c ∷ address) sent received = some (record {
  probe_ttl = ttl;
  reply_address = c ∷ address;
  sent_timestamp = sent;
  received_timestamp = received;
})

-- From `fie := …` on
unfoldable pub fie_of : CompressedFie → ℕ → Directive → Bytes → FullFie
unfolding delta decode_timestamp
fie_of row n pd source =
    let r = row.columns in
    let capture = capture_time_of row in
    let at = λ (i : ℕ). decode_timestamp capture (delta r.time_deltas i) in
    record {
      agent_id = pd.agent_id;
      directive_id = r.probing_directive_id;
      ip_version = pd.ip_version;
      protocol = pd.protocol;
      source_address = source;
      destination_address = pd.destination;
      production_timestamp = at 0;
      near_info = info pd.near_ttl r.near_reply_address (at 1) (at 2);
      far_info = info ((pd.near_ttl + 1) % 2 ^ 8) r.far_reply_address (at 3) (at 4);
      sequence_number = n;
      capture_time = capture;
    }

abbrev pub with_answer : CompressedFie → ℕ → Directive → Answer → Option FullFie
with_answer row n pd no_events = none
with_answer row n pd not_yet = none
with_answer row n pd (disconnected exact) = none
with_answer row n pd (connected ip exact) = some (fie_of row n pd ip)

module _ (agents : ConnectionStream) (pds : Directives) where
  abbrev with_directive : CompressedFie → ℕ → Option Directive → Option FullFie
  with_directive row n none = none
  with_directive row n (some pd) =
      with_answer row n pd (address_at agents pd.agent_id (capture_time_of row))

  -- `construct`
  unfoldable pub construct : CompressedFie → ℕ → Option FullFie
  construct row n = with_directive row n (find_directive row.columns.probing_directive_id pds)

  abbrev onto_fies : Option FullFie → List (Option FullFie) → List (Option FullFie)
  onto_fies none rest = none ∷ []
  onto_fies (some fie) rest = some fie ∷ rest

  -- `FIEs`, which ends at the first error
  unfoldable pub fies : ℕ → List (Option CompressedFie) → List (Option FullFie)
  fies n [] = []
  fies n (none ∷ rows) = none ∷ []
  fies n (some row ∷ rows) = onto_fies (construct row n) (fies (next_number n) rows)
