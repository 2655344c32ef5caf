-- ===== src/Cmd/Transfer/Order.antt =====
-- The rows between the files and the server, in their order.
use fie_importer.Prelude.{
  ℕ, ◌≡◌, refl, sym, ap, ◌∙◌, ◌≢◌, Bool, true, some, List, [], ◌++◌, append_assoc, append-nil,
  arith, length, length-append, concat, concat-append,
}
use fie_importer.Prelude.Bytes.{Bytes}
use fie_importer.Clickhouse.Server.{Server, IsServer}
use fie_importer.Cmd.Transfer.{
  Producer, reading, returned, failed, Consumer, waiting, inserting, finished, broken, IsClosed,
  Pipe, pipe, start, Step, read, flush, finish, flush_last, fail, stop, receive, insert,
  insert_fails, insert_stops, drained, interrupt, Reachable, here, there, result, server, sent,
}

-- The rows that wait on either side of the channel.
abbrev ahead : {Row : Type 0} → Producer Row → List Row
ahead (reading rest batch) = batch ++ rest
ahead returned = []
ahead failed = []

abbrev behind : {Row : Type 0} → Consumer Row → List Row
behind waiting = []
behind (inserting b) = b
behind finished = []
behind broken = []

pub not_reading : {Row : Type 0} {rest batch : List Row} → IsClosed (reading rest batch) → ⊥
not_reading = elim [ ]

all_done :
    {Row : Type 0} (done : List Row) (q : List (List Row)) (rows : List Row)
    → q ≡ []
    → done ++ (concat q ++ []) ≡ rows
    → done ≡ rows
all_done done q rows e h = sym (append-nil done) ∙ ap (λ t. done ++ (concat t ++ [])) (sym e) ∙ h

module _ {Row : Type 0} (s : Server Row) (laws : IsServer s) (name : Bytes) (rows : List Row)
    (from : s.State) (before : List Row) where
  open s use {State, table}

  -- The table holds `done` behind its rows, and these were counted.
  abbrev Holds : List Row → State → ℕ → Type 0
  Holds done a n = (table a name ≡ some (before ++ done)) × (n ≡ length done)

  -- The state of a run by what either goroutine came to.
  data IsOrdered : Pipe s → Type 0 where
    flowing :
        {p : Producer Row} {q : List (List Row)} {c : Consumer Row} {x : Bool} {a : State} {n : ℕ}
        (done : List Row)
        → Holds done a n
        → (c ≡ finished → (q ≡ []) × IsClosed p)
        → c ≢ broken
        → (p ≢ failed → done ++ (behind c ++ (concat q ++ ahead p)) ≡ rows)
        → IsOrdered (pipe p q c x a n)
    stuck :
        {p : Producer Row} {q : List (List Row)} {x : Bool} {a : State} {n : ℕ}
        → IsOrdered (pipe p q broken x a n)

  module _ (batch_size : ℕ) (fault : Bool) where
    step-IsOrdered : (p r : Pipe s) → Step s name batch_size fault p r → IsOrdered p → IsOrdered r
    step-IsOrdered _ _ (read {r} {rest} {batch} {q} {c} {x} {a} {n} room)
          (flowing done holds last whole order) =
        flowing done holds (λ e. absurd (not_reading (last e).1)) whole
          (λ ne. simp append_assoc (order (λ e. cc)))
    step-IsOrdered _ _ (flush {rest} {batch} {q} {c} {x} {a} {n} full room)
          (flowing done holds last whole order) =
        flowing done holds (λ e. absurd (not_reading (last e).1)) whole
          (λ ne. simp (append_assoc, concat-append) (order (λ e. cc)))
    step-IsOrdered _ _ (finish {q} {c} {x} {a} {n} good) (flowing done holds last whole order) =
        flowing done holds (λ e. absurd (not_reading (last e).1)) whole (λ ne. order (λ e. cc))
    step-IsOrdered _ _ (flush_last {r} {batch} {q} {c} {x} {a} {n} good part room)
          (flowing done holds last whole order) =
        flowing done holds (λ e. absurd (not_reading (last e).1)) whole
          (λ ne. simp (append_assoc, concat-append) (order (λ e. cc)))
    step-IsOrdered _ _ (fail {batch} {q} {c} {x} {a} {n} bad part)
          (flowing done holds last whole order) =
        flowing done holds (λ e. absurd (not_reading (last e).1)) whole (λ ne. absurd (ne refl))
    step-IsOrdered _ _ (stop {rest} {batch} {q} {c} {a} {n}) (flowing done holds last whole order) =
        flowing done holds (λ e. absurd (not_reading (last e).1)) whole (λ ne. absurd (ne refl))
    step-IsOrdered _ _ (receive {p} {b} {q} {x} {a} {n}) (flowing done holds last whole order) =
        flowing done holds (λ e. absurd (cc)) (λ e. cc)
          (λ ne. sym (ap (λ t. done ++ t) (append_assoc b (concat q) (ahead p))) ∙ order ne)
    step-IsOrdered _ _ (insert {p} {b} {q} {x} {a} {n} good)
          (flowing done (holds, count) last whole order) =
        flowing (done ++ b)
          (
            laws.send_ok name b a (before ++ done) good holds
                ∙ ap (λ t. some t) (append_assoc before done b),
            omega (arith, length-append done b, count),
          )
          (λ e. absurd (cc)) (λ e. cc) (λ ne. simp append_assoc (order ne))
    step-IsOrdered _ _ (insert_fails bad) (flowing done holds last whole order) = stuck
    step-IsOrdered _ _ insert_stops (flowing done holds last whole order) = stuck
    step-IsOrdered _ _ (drained closed) (flowing done holds last whole order) =
        flowing done holds (λ e. (refl, closed)) (λ e. cc) order
    step-IsOrdered _ _ interrupt (flowing done holds last whole order) =
        flowing done holds last whole order
    step-IsOrdered _ _ (read room) stuck = stuck
    step-IsOrdered _ _ (flush full room) stuck = stuck
    step-IsOrdered _ _ (finish ok) stuck = stuck
    step-IsOrdered _ _ (flush_last ok part room) stuck = stuck
    step-IsOrdered _ _ (fail bad part) stuck = stuck
    step-IsOrdered _ _ stop stuck = stuck
    step-IsOrdered _ _ interrupt stuck = stuck

    Reachable-IsOrdered :
        (p r : Pipe s) → IsOrdered p → Reachable s name batch_size fault p r → IsOrdered r
    Reachable-IsOrdered p _ h here = h
    Reachable-IsOrdered p _ h (there {q} {r} run step) =
        step-IsOrdered q r step (Reachable-IsOrdered p q h run)

    ordered_over :
        (p : Pipe s) → IsOrdered p → result s p ≡ true → Holds rows (server s p) (sent s p)
    unfolding result
    ordered_over (pipe returned q finished x a n) (flowing done holds last whole order) h =
        let (nothing, closed) = last refl in
        let same = all_done done q rows nothing (order (λ e. cc)) in
        (holds.0 ∙ ap (λ t. some (before ++ t)) same, holds.1 ∙ ap length same)
    ordered_over (pipe (reading rest batch) q c x a n) ordered h = cc
    ordered_over (pipe returned q waiting x a n) ordered h = cc
    ordered_over (pipe returned q (inserting b) x a n) ordered h = cc
    ordered_over (pipe returned q broken x a n) ordered h = cc
    ordered_over (pipe failed q c x a n) ordered h = cc

    -- However the two goroutines are scheduled: if the transfer returns no error, then the table holds
    -- all rows that were to be read, in their order and once each, behind those that it held before, and
    -- `sent` is their number.
    pub transfer_result :
        (p : Pipe s)
        → table from name ≡ some before
        → Reachable s name batch_size fault (start s rows from) p
        → result s p ≡ true
        → (table (server s p) name ≡ some (before ++ rows)) × (sent s p ≡ length rows)
    unfolding start
    transfer_result p first run h =
        ordered_over p
          (Reachable-IsOrdered (start s rows from) p
            (flowing [] (simp append-nil first, refl) (λ e. absurd (cc)) (λ e. cc) (λ ne. refl))
            run)
          h
