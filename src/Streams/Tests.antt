-- ===== src/Streams/Tests.antt =====
-- The streams at small inputs.
use fie_importer.Prelude.{
  ℕ, ◌≡◌, refl, Bool, true, false, Option, none, some, List, [], ◌∷◌, ℤ, pos,
}
use fie_importer.Prelude.Bytes.{Bytes, codes}
use fie_importer.Prelude.Sort.{sort, insert}
use fie_importer.Streams.Connections.{
  ConnectionEvent, connected, disconnected, connection_stream, address_at, add_event, add_events,
  events_of, search, search_loop, is_reached, reply_at, reply_before, equal,
}
use fie_importer.Streams.Connections.Latest.{Explains, address_at-Explains}
use fie_importer.Streams.Raw.{raw_events, count_events}
use fie_importer.Streams.Raw.Lines.{Directory, written, raw_events-written}
use fie_importer.Streams.Compressed.{Columns, CompressedFie}
use fie_importer.Streams.Full.{Directive, directives_by_id, find_directive, fies}
use fie_importer.Streams.Full.Deltas.{packed}
use fie_importer.Streams.Full.Sources.{AreResolved, fies-AreResolved}

abbrev a : Bytes
a = codes "a"

abbrev b : Bytes
b = codes "b"

abbrev address : Bytes
address = 192 ∷ 0 ∷ 2 ∷ 1 ∷ []

-- The agent `a` connects at 10 and disconnects at 20; the events are not in order.
abbrev history : List ConnectionEvent
history =
    record { agent_id = a; time = pos 20; address = none }
    ∷ record { agent_id = b; time = pos 12; address = some (10 ∷ 0 ∷ 0 ∷ 1 ∷ []) }
    ∷ record { agent_id = a; time = pos 10; address = some address }
    ∷ []

address_at_run :
    (address_at (connection_stream history) a (pos 15) ≡ connected address false)
    × (address_at (connection_stream history) a (pos 20) ≡ disconnected true)
unfolding address_at connection_stream sort insert add_event add_events events_of search search_loop
    is_reached reply_at reply_before equal
address_at_run = (refl, refl)

address_at-Explains_example :
    Explains history a (pos 15) (address_at (connection_stream history) a (pos 15))
address_at-Explains_example = address_at-Explains history a (pos 15)

abbrev disk : Bytes → Option (Bytes × Bool)
disk name = some (written (a ∷ [] ∷ b ∷ []), false)

abbrev directory : Directory
directory = (codes "events-1.jsonl", a ∷ [] ∷ b ∷ []) ∷ []

raw_events-written_example :
    (raw_events disk (codes "events-1.jsonl" ∷ []) ≡ some a ∷ some [] ∷ some b ∷ [])
    × (count_events disk (codes "events-1.jsonl" ∷ []) ≡ some 3)
raw_events-written_example =
    raw_events-written disk directory
      ((refl, (((refl, tt), refl), ((tt, tt), (((refl, tt), refl), tt)))), tt)

abbrev no_time : Bytes → Option ℤ
no_time s = some (pos 100)

abbrev columns : ℕ → Columns
columns id = record {
  probing_directive_id = id;
  near_reply_address = address;
  far_reply_address = [];
  capture_second = 5;
  time_deltas = packed 1 2 63 4 5;
}

abbrev two_rows : Bytes → Option (List Columns × Bool)
two_rows name = some (columns 7 ∷ columns 8 ∷ [], false)

abbrev file_name : Bytes
file_name = codes "fies-20250102T030405Z.duckdb"

abbrev directive : Directive
directive = record {
  directive_id = 7;
  agent_id = a;
  ip_version = 4;
  protocol = 17;
  destination = 198 ∷ 51 ∷ 100 ∷ 1 ∷ [];
  near_ttl = 9;
}

abbrev row : CompressedFie
row = record { sequence_number = 0; columns = columns 7; capture_base_time = pos 10 }

built : directives_by_id (directive ∷ []) [] ≡ some ((7, directive) ∷ [])
unfolding directives_by_id find_directive
built = refl

fies-AreResolved_example :
    AreResolved history
      (directive ∷ [])
      (some row ∷ none ∷ [])
      (fies (connection_stream history) ((7, directive) ∷ []) 0 (some row ∷ none ∷ []))
fies-AreResolved_example =
    fies-AreResolved history (directive ∷ []) ((7, directive) ∷ []) built (some row ∷ none ∷ []) 0
      (refl, refl)
