-- ===== src/Streams/Connections.antt =====
-- deprecated/internal/streams/agent_connection_history.go: when the agents connected and disconnected. What
-- `json.Unmarshal`, `net.SplitHostPort` and `net.ParseIP` return is taken as arguments, `none` for errors.
pub mod Search
pub mod Answers
pub mod Agents
pub mod Latest
use fie_importer.Prelude.{
  ℕ, zero, suc, ◌+◌, ◌/◌, Bool, true, false, not, ◌&&◌, Option, none, some, List, [], ◌∷◌, ◌++◌,
  map, ltb, if◌then◌else◌, length, is_empty, get_elem?,
}
use fie_importer.Prelude.Bytes.{Bytes, codes}
use fie_importer.Prelude.Time.{Time, before}
use fie_importer.Prelude.Sort.{sort}
use fie_importer.Net.{bytes_eq}
use fie_importer.Agents.List.{text_le}

-- The address is nil for a disconnection.
pub record ConnectionEvent : Type 0 where
  pub agent_id : Bytes
  pub time : Time
  pub address : Option Bytes

-- `agentConnectedEvent` and `agentDisconnectedEvent`
pub record Decoded : Type 0 where
  pub agent_id : Bytes
  pub timestamp : Time
  pub remote_address : Bytes

-- The body of the first loop of `NewAgentConnectionStream`: an error, `continue`, or an event.
pub data Read : Type 0 where
  bad skipped : Read
  event : ConnectionEvent → Read

abbrev disconnected_event : Option Decoded → Read
disconnected_event none = bad
disconnected_event (some d) =
    event (record { agent_id = d.agent_id; time = d.timestamp; address = none })

module _ (split_host_port parse_ip : Bytes → Option Bytes) where
  unfoldable pub host_of : Bytes → Bytes
  host_of remote = elim (split_host_port remote) [ none ↦ remote | some host ↦ host ]

  unfoldable pub connected_event : Option Decoded → Read
  unfolding host_of
  connected_event none = bad
  connected_event (some d) = elim (parse_ip (host_of d.remote_address)) [
    | none ↦ bad
    | some ip ↦ event (record { agent_id = d.agent_id; time = d.timestamp; address = some ip })
  ]

  module _ (envelope_type : Bytes → Option Bytes) (decode : Bytes → Option Decoded) where
    unfoldable pub read_event : Bytes → Read
    unfolding connected_event
    read_event raw = elim (envelope_type raw) [
      | none ↦ bad
      | some type ↦
          if bytes_eq type (codes "AgentConnectedEvent")
          then connected_event (decode raw)
          else if bytes_eq type (codes "AgentDisconnectedEvent")
          then disconnected_event (decode raw)
          else skipped
    ]

    abbrev onto : Read → Option (List ConnectionEvent) → Option (List ConnectionEvent)
    onto bad rest = none
    onto skipped rest = rest
    onto (event e) none = none
    onto (event e) (some es) = some (e ∷ es)

    -- The loop over `stream.Events()`, where `none` is an error of the stream
    unfoldable pub read_events : List (Option Bytes) → Option (List ConnectionEvent)
    unfolding read_event
    read_events [] = some []
    read_events (none ∷ raws) = none
    read_events (some raw ∷ raws) = onto (read_event raw) (read_events raws)

-- `sort.Slice` by time, which may put events of one time in any order; this keeps theirs.
abbrev pub is_no_later : ConnectionEvent → ConnectionEvent → Bool
is_no_later e f = not (before f.time e.time)

-- `eventsByAgent`, a map
abbrev pub ByAgent : Type 0
ByAgent = List (Bytes × List ConnectionEvent)

unfoldable pub add_event : ConnectionEvent → ByAgent → ByAgent
add_event e [] = (e.agent_id, e ∷ []) ∷ []
add_event e ((id, es) ∷ m) =
    let rest = add_event e m in
    if bytes_eq e.agent_id id then (id, es ++ e ∷ []) ∷ m else (id, es) ∷ rest

unfoldable pub add_events : ByAgent → List ConnectionEvent → ByAgent
unfolding add_event
add_events m [] = m
add_events m (e ∷ es) = add_events (add_event e m) es

-- `h.eventsByAgent[agentID]`, empty where there is none
unfoldable pub events_of : Bytes → ByAgent → List ConnectionEvent
events_of id [] = []
events_of id ((x, es) ∷ m) = if bytes_eq id x then es else events_of id m

pub record ConnectionStream : Type 0 where
  pub by_agent : ByAgent
  pub events : List ConnectionEvent

-- `NewAgentConnectionStream` behind its first loop
unfoldable pub connection_stream : List ConnectionEvent → ConnectionStream
unfolding sort add_events
connection_stream es =
    let sorted = sort is_no_later es in record { by_agent = add_events [] sorted; events = sorted }

-- `AgentIDs`
unfoldable pub agent_ids : ConnectionStream → List Bytes
unfolding sort text_le
agent_ids h = sort text_le (map (λ entry. entry.0) h.by_agent)

-- `Len`
unfoldable pub len : ConnectionStream → ℕ
len h = length h.by_agent

-- The loop of Go's `sort.Search` between `i` and `j`; the fuel is the length of the range.
unfoldable pub search_loop : (ℕ → Bool) → ℕ → ℕ → ℕ → ℕ
search_loop f zero i j = i
search_loop f (suc fuel) i j = elim (ltb i j) [
  | false ↦ i
  | true ↦
      let h = (i + j) / 2 in
      elim (f h) [ false ↦ search_loop f fuel (suc h) j | true ↦ search_loop f fuel i h ]
]

unfoldable pub search : ℕ → (ℕ → Bool) → ℕ
unfolding search_loop
search n f = search_loop f n 0 n

-- What `AddressAt` returns; the Boolean tells whether the event is of that very time.
pub data Answer : Type 0 where
  no_events not_yet : Answer
  disconnected : Bool → Answer
  connected : Bytes → Bool → Answer

-- `Time.Equal`
unfoldable pub equal : Time → Time → Bool
equal a b = not (before a b) && not (before b a)

abbrev pub reply : Option Bytes → Bool → Answer
reply none exact = disconnected exact
reply (some ip) exact = connected ip exact

-- `!events[i].Time.Before(t)`. The search asks below `len(events)` only.
unfoldable pub is_reached : List ConnectionEvent → Time → ℕ → Bool
is_reached es t i = elim (get_elem? es i) [ none ↦ true | some e ↦ not (before e.time t) ]

-- `if i == 0`, and then `events[i-1]`
unfoldable pub reply_before : List ConnectionEvent → ℕ → Answer
reply_before es zero = not_yet
reply_before es (suc i) = elim (get_elem? es i) [ none ↦ not_yet | some e ↦ reply e.address false ]

unfoldable pub reply_at : List ConnectionEvent → Time → ℕ → Answer
unfolding reply_before
reply_at es t i = elim (get_elem? es i) [
  | none ↦ reply_before es i
  | some e ↦ if equal e.time t then reply e.address true else reply_before es i
]

-- `AddressAt`
unfoldable pub address_at : ConnectionStream → Bytes → Time → Answer
address_at h id t =
    let es = events_of id h.by_agent in
    if is_empty es then no_events else reply_at es t (search (length es) (is_reached es t))
