-- ===== src/Streams/Raw.antt =====
-- deprecated/internal/streams/raw_event_stream.go and current_status_stream.go: the lines of the event files.
-- The files come as what `os.Open` and the reads give: `none` if a file cannot be opened, else its bytes and
-- whether an error stands behind them. `json.Unmarshal` is taken as arguments.
pub mod Lines
use fie_importer.Prelude.{
  ℕ, ◌+◌, Bool, true, false, Option, none, some, List, [], ◌∷◌, ◌++◌, map, ◌==◌, if◌then◌else◌,
  length,
}
use fie_importer.Prelude.Bytes.{Bytes, codes}
use fie_importer.Net.{bytes_eq}

abbrev pub newline : ℕ
newline = 10

abbrev pub carriage_return : ℕ
carriage_return = 13

abbrev onto_first : ℕ → List Bytes → List Bytes
onto_first c [] = (c ∷ []) ∷ []
onto_first c (l ∷ ls) = (c ∷ l) ∷ ls

-- What the calls of `reader.ReadBytes('\n')` return, up to the first that is empty
unfoldable pub read_lines : Bytes → List Bytes
read_lines [] = []
read_lines (c ∷ s) =
    let rest = read_lines s in if c == newline then (c ∷ []) ∷ rest else onto_first c rest

-- `b[:len(b)-1]` if its last byte is `c`
unfoldable pub without_last : ℕ → Bytes → Bytes
without_last c [] = []
without_last c (d ∷ []) = if d == c then [] else d ∷ []
without_last c (d ∷ e ∷ s) = d ∷ without_last c (e ∷ s)

unfoldable pub trim_newline : Bytes → Bytes
unfolding without_last
trim_newline b = without_last carriage_return (without_last newline b)

module _ (open_file : Bytes → Option (Bytes × Bool)) where
  -- The lines that `readFile` yields, and `behind` if it returns true
  abbrev pub file_events : Option (Bytes × Bool) → List (Option Bytes) → List (Option Bytes)
  file_events none behind = none ∷ []
  file_events (some (content, true)) behind =
      map (λ l. some (trim_newline l)) (read_lines content) ++ none ∷ []
  file_events (some (content, false)) behind =
      map (λ l. some (trim_newline l)) (read_lines content) ++ behind

  -- `Events`
  unfoldable pub raw_events : List Bytes → List (Option Bytes)
  unfolding read_lines trim_newline
  raw_events [] = []
  raw_events (filename ∷ files) = file_events (open_file filename) (raw_events files)

  abbrev pub plus_lines : Option (Bytes × Bool) → Option ℕ → Option ℕ
  plus_lines none rest = none
  plus_lines (some (content, failure)) none = none
  plus_lines (some (content, true)) (some n) = none
  plus_lines (some (content, false)) (some n) = some (length (read_lines content) + n)

  -- `count` of `NewRawEventStream`
  unfoldable pub count_events : List Bytes → Option ℕ
  unfolding read_lines
  count_events [] = some 0
  count_events (filename ∷ files) = plus_lines (open_file filename) (count_events files)

-- `NewCurrentStatusStream`, for what `CurrentStatusEvent` decodes to
module _ {Status : Type 0} (envelope_type : Bytes → Option Bytes)
    (decode : Bytes → Option Status) where
  abbrev onto : Option Status → Option (List Status) → Option (List Status)
  onto none rest = none
  onto (some event) none = none
  onto (some event) (some events) = some (event ∷ events)

  abbrev status_event : Bytes → Option Bytes → Option (List Status) → Option (List Status)
  status_event raw none rest = none
  status_event raw (some type) rest =
      if bytes_eq type (codes "CurrentStatusEvent") then onto (decode raw) rest else rest

  unfoldable pub status_stream : List (Option Bytes) → Option (List Status)
  status_stream [] = some []
  status_stream (none ∷ raws) = none
  status_stream (some raw ∷ raws) = status_event raw (envelope_type raw) (status_stream raws)
