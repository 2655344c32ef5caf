-- ===== src/Cmd/Transfer.antt =====
-- `transfer` (cmd/fie-importer/upload_fies.go) and `transferPDs` (upload_pds.go): one goroutine reads
-- rows into batches, another inserts them, with a channel of two batches between them.
pub mod Order
pub mod Ends
pub mod Runs
use fie_importer.Prelude.{ℕ, ◌+◌, ◌≤◌, ◌<◌, ◌≡◌, Bool, true, false, List, [], ◌∷◌, ◌++◌, length}
use fie_importer.Prelude.Bytes.{Bytes}
use fie_importer.Clickhouse.Server.{Server}

-- The reading goroutine: the rows that it will read and its batch, or what it returned. The channel is
-- closed when it returns.
pub data Producer (Row : Type 0) : Type 0 where
  reading : List Row → List Row → Producer Row
  returned failed : Producer Row

-- The inserting goroutine.
pub data Consumer (Row : Type 0) : Type 0 where
  waiting : Consumer Row
  inserting : List Row → Consumer Row
  finished broken : Consumer Row

pub data IsClosed {Row : Type 0} : Producer Row → Type 0 where
  on_return : IsClosed returned
  on_failure : IsClosed failed

module _ {Row : Type 0} (s : Server Row) where
  open s use {State, send}

  -- Both goroutines, the channel, whether their context is cancelled, the server, and `sent`.
  pub data Pipe : Type 0 where
    pipe : Producer Row → List (List Row) → Consumer Row → Bool → State → ℕ → Pipe

  unfoldable pub start : List Row → State → Pipe
  start rows a = pipe (reading rows []) [] waiting false a 0

  -- The capacity of `batches`
  abbrev pub queue_size : ℕ
  queue_size = 2

  -- One step of either goroutine, or of the context. `batch_size` is the flag, and `fault` is whether
  -- reading fails behind the rows.
  pub data Step (name : Bytes) (batch_size : ℕ) (fault : Bool) : Pipe → Pipe → Type 0 where
    read :
        {r : Row} {rest batch : List Row} {q : List (List Row)} {c : Consumer Row} {x : Bool}
        {a : State} {n : ℕ}
        → length batch < batch_size
        → Step name batch_size fault
            (pipe (reading (r ∷ rest) batch) q c x a n)
            (pipe (reading rest (batch ++ r ∷ [])) q c x a n)
    flush :
        {rest batch : List Row} {q : List (List Row)} {c : Consumer Row} {x : Bool} {a : State}
        {n : ℕ}
        → batch_size ≤ length batch
        → length q < queue_size
        → Step name batch_size fault
            (pipe (reading rest batch) q c x a n)
            (pipe (reading rest []) (q ++ batch ∷ []) c x a n)
    finish :
        {q : List (List Row)} {c : Consumer Row} {x : Bool} {a : State} {n : ℕ}
        → fault ≡ false
        → Step name batch_size fault (pipe (reading [] []) q c x a n) (pipe returned q c x a n)
    flush_last :
        {r : Row} {batch : List Row} {q : List (List Row)} {c : Consumer Row} {x : Bool} {a : State}
        {n : ℕ}
        → fault ≡ false
        → length (r ∷ batch) < batch_size
        → length q < queue_size
        → Step name batch_size fault
            (pipe (reading [] (r ∷ batch)) q c x a n)
            (pipe returned (q ++ (r ∷ batch) ∷ []) c x a n)
    -- An error of the reader; errgroup then cancels the context.
    fail :
        {batch : List Row} {q : List (List Row)} {c : Consumer Row} {x : Bool} {a : State} {n : ℕ}
        → fault ≡ true
        → length batch < batch_size
        → Step name batch_size fault (pipe (reading [] batch) q c x a n) (pipe failed q c true a n)
    -- ctx.Err() while it waits for the channel, or an error of the reader because of the context
    stop :
        {rest batch : List Row} {q : List (List Row)} {c : Consumer Row} {a : State} {n : ℕ}
        → Step name batch_size fault
            (pipe (reading rest batch) q c true a n)
            (pipe failed q c true a n)
    receive :
        {p : Producer Row} {b : List Row} {q : List (List Row)} {x : Bool} {a : State} {n : ℕ}
        → Step name batch_size fault (pipe p (b ∷ q) waiting x a n) (pipe p q (inserting b) x a n)
    insert :
        {p : Producer Row} {b : List Row} {q : List (List Row)} {x : Bool} {a : State} {n : ℕ}
        → (send name b a).0 ≡ true
        → Step name batch_size fault
            (pipe p q (inserting b) x a n)
            (pipe p q waiting x (send name b a).1 (n + length b))
    insert_fails :
        {p : Producer Row} {b : List Row} {q : List (List Row)} {x : Bool} {a : State} {n : ℕ}
        → (send name b a).0 ≡ false
        → Step name batch_size fault
            (pipe p q (inserting b) x a n)
            (pipe p q broken true (send name b a).1 n)
    -- The insert fails because of the context, before the server has the batch.
    insert_stops :
        {p : Producer Row} {b : List Row} {q : List (List Row)} {a : State} {n : ℕ}
        → Step name batch_size fault (pipe p q (inserting b) true a n) (pipe p q broken true a n)
    drained :
        {p : Producer Row} {x : Bool} {a : State} {n : ℕ}
        → IsClosed p
        → Step name batch_size fault (pipe p [] waiting x a n) (pipe p [] finished x a n)
    -- The user interrupts the command.
    interrupt :
        {p : Producer Row} {q : List (List Row)} {c : Consumer Row} {a : State} {n : ℕ}
        → Step name batch_size fault (pipe p q c false a n) (pipe p q c true a n)

  pub data Reachable (name : Bytes) (batch_size : ℕ) (fault : Bool) (p : Pipe) : Pipe → Type 0 where
    here : Reachable name batch_size fault p p
    there :
        {q r : Pipe}
        → Reachable name batch_size fault p q
        → Step name batch_size fault q r
        → Reachable name batch_size fault p r

  -- `group.Wait` returns: both goroutines have.
  pub data IsOver : Pipe → Type 0 where
    went_well :
        {q : List (List Row)} {x : Bool} {a : State} {n : ℕ}
        → IsOver (pipe returned q finished x a n)
    reader_failed :
        {q : List (List Row)} {x : Bool} {a : State} {n : ℕ} → IsOver (pipe failed q finished x a n)
    insert_failed :
        {p : Producer Row} {q : List (List Row)} {x : Bool} {a : State} {n : ℕ}
        → IsClosed p
        → IsOver (pipe p q broken x a n)

  -- Its result: is there no error?
  unfoldable pub result : Pipe → Bool
  result (pipe returned q finished x a n) = true
  result (pipe returned q waiting x a n) = false
  result (pipe returned q (inserting b) x a n) = false
  result (pipe returned q broken x a n) = false
  result (pipe failed q c x a n) = false
  result (pipe (reading rest batch) q c x a n) = false

  abbrev pub server : Pipe → State
  server (pipe p q c x a n) = a

  abbrev pub sent : Pipe → ℕ
  sent (pipe p q c x a n) = n
