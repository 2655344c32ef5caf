-- ===== src/Cmd/Transfer/Ends.antt =====
-- The steps that the two goroutines have left, and when a transfer is over.
use fie_importer.Prelude.{
  ℕ, zero, suc, ◌+◌, ◌*◌, ◌≤◌, ◌<◌, ◌≡◌, refl, ◌⊎◌, inl, inr, Bool, true, false, List, [], ◌∷◌,
  ◌++◌, arith, leb, Bool-cases, length, length-append,
}
use fie_importer.Prelude.Bytes.{Bytes}
use fie_importer.Clickhouse.Server.{Server}
use fie_importer.Cmd.Transfer.{
  Producer, reading, returned, failed, Consumer, waiting, inserting, finished, broken, IsClosed,
  on_return, on_failure, queue_size, Pipe, pipe, start, Step, read, flush, finish, flush_last, fail,
  stop, receive, insert, insert_fails, insert_stops, drained, interrupt, Reachable, here, there,
  IsOver, went_well, reader_failed, insert_failed,
}
use fie_importer.Cmd.Transfer.Order.{not_reading}

module _ {Row : Type 0} (s : Server Row) (name : Bytes) (batch_size : ℕ) (fault : Bool) where
  open s use {State, send}

  -- Every step makes this smaller: what either goroutine has left to do.
  abbrev reader_work : Producer Row → ℕ
  reader_work (reading rest batch) = 4 * (length rest + length rest) + 3 * length batch + 4
  reader_work returned = 0
  reader_work failed = 0

  abbrev insert_work : Consumer Row → ℕ
  insert_work waiting = 1
  insert_work (inserting b) = 2
  insert_work finished = 0
  insert_work broken = 0

  abbrev interrupt_work : Bool → ℕ
  interrupt_work true = 0
  interrupt_work false = 1

  -- What both goroutines have left to do.
  unfoldable pub busy : Pipe s → ℕ
  busy (pipe p q c x a n) = reader_work p + 2 * length q + insert_work c

  abbrev is_cancelled : Pipe s → Bool
  is_cancelled (pipe p q c x a n) = x

  unfoldable pub work : Pipe s → ℕ
  work p = busy p + interrupt_work (is_cancelled p)

  module _ (positive : 1 ≤ batch_size) where
    -- No run goes on for ever: every step, of whichever goroutine, makes the work that is left less.
    pub step-work : (p r : Pipe s) → Step s name batch_size fault p r → work r < work p
    unfolding work busy
    step-work _ _ (read {r} {rest} {batch} {q} {c} {x} {a} {n} room) =
        omega (arith, length-append batch (r ∷ []))
    step-work _ _ (flush {rest} {batch} {q} {c} {x} {a} {n} full room) =
        omega (arith, length-append q (batch ∷ []))
    step-work _ _ (finish {q} {c} {x} {a} {n} good) = omega arith
    step-work _ _ (flush_last {r} {batch} {q} {c} {x} {a} {n} good part room) =
        omega (arith, length-append q ((r ∷ batch) ∷ []))
    step-work _ _ (fail {batch} {q} {c} {x} {a} {n} bad part) = ground arith
    step-work _ _ (stop {rest} {batch} {q} {c} {a} {n}) = omega arith
    step-work _ _ (receive {p} {b} {q} {x} {a} {n}) = omega arith
    step-work _ _ (insert {p} {b} {q} {x} {a} {n} good) = omega arith
    step-work _ _ (insert_fails {p} {b} {q} {x} {a} {n} bad) = ground arith
    step-work _ _ (insert_stops {p} {b} {q} {a} {n}) = omega arith
    step-work _ _ (drained {p} {x} {a} {n} closed) = omega arith
    step-work _ _ (interrupt {p} {q} {c} {a} {n}) = omega arith

    -- Once the inserting goroutine has returned, the other one has or will see the cancelled context.
    data IsLive : Pipe s → Type 0 where
      both_run :
          {p : Producer Row} {q : List (List Row)} {c : Consumer Row} {x : Bool} {a : State} {n : ℕ}
          → (c ≡ finished → IsClosed p)
          → (c ≡ broken → x ≡ true)
          → IsLive (pipe p q c x a n)

    step-IsLive : (p r : Pipe s) → Step s name batch_size fault p r → IsLive p → IsLive r
    step-IsLive _ _ (read {r} {rest} {batch} {q} {c} {x} {a} {n} room) (both_run closed cancelled) =
        both_run (λ e. absurd (not_reading (closed e))) cancelled
    step-IsLive _ _ (flush {rest} {batch} {q} {c} {x} {a} {n} full room)
          (both_run closed cancelled) =
        both_run (λ e. absurd (not_reading (closed e))) cancelled
    step-IsLive _ _ (finish {q} {c} {x} {a} {n} good) (both_run closed cancelled) =
        both_run (λ e. on_return) cancelled
    step-IsLive _ _ (flush_last {r} {batch} {q} {c} {x} {a} {n} good part room)
          (both_run closed cancelled) =
        both_run (λ e. on_return) cancelled
    step-IsLive _ _ (fail {batch} {q} {c} {x} {a} {n} bad part) (both_run closed cancelled) =
        both_run (λ e. on_failure) (λ e. refl)
    step-IsLive _ _ (stop {rest} {batch} {q} {c} {a} {n}) (both_run closed cancelled) =
        both_run (λ e. on_failure) (λ e. refl)
    step-IsLive _ _ (receive {p} {b} {q} {x} {a} {n}) (both_run closed cancelled) =
        both_run (λ e. absurd (cc)) (λ e. absurd (cc))
    step-IsLive _ _ (insert {p} {b} {q} {x} {a} {n} good) (both_run closed cancelled) =
        both_run (λ e. absurd (cc)) (λ e. absurd (cc))
    step-IsLive _ _ (insert_fails {p} {b} {q} {x} {a} {n} bad) (both_run closed cancelled) =
        both_run (λ e. absurd (cc)) (λ e. refl)
    step-IsLive _ _ (insert_stops {p} {b} {q} {a} {n}) (both_run closed cancelled) =
        both_run (λ e. absurd (cc)) (λ e. refl)
    step-IsLive _ _ (drained {p} {x} {a} {n} done) (both_run closed cancelled) =
        both_run (λ e. done) (λ e. absurd (cc))
    step-IsLive _ _ (interrupt {p} {q} {c} {a} {n}) (both_run closed cancelled) =
        both_run closed (λ e. refl)

    Reachable-IsLive : (p r : Pipe s) → IsLive p → Reachable s name batch_size fault p r → IsLive r
    Reachable-IsLive p _ h here = h
    Reachable-IsLive p _ h (there {q} {r} run step) =
        step-IsLive q r step (Reachable-IsLive p q h run)

    start-IsLive : (rows : List Row) (a : State) → IsLive (start s rows a)
    unfolding start
    start-IsLive rows a = both_run (λ e. absurd (cc)) (λ e. absurd (cc))

    -- A step of one of the goroutines, rather than an interruption.
    abbrev pub Moves : Pipe s → Type 0
    Moves p = (r : Pipe s) × Step s name batch_size fault p r × (busy r < busy p)

    last-Moves :
        (batch : List Row) (q : List (List Row)) (c : Consumer Row) (x : Bool) (a : State) (n : ℕ)
        → fault ≡ false
        → length q < queue_size s
        → length batch < batch_size
        → Moves (pipe (reading [] batch) q c x a n)
    last-Moves [] q c x a n good room part =
        (pipe returned q c x a n, finish good, unfold busy in omega arith)
    last-Moves (r ∷ batch) q c x a n good room part = (
      pipe returned (q ++ (r ∷ batch) ∷ []) c x a n,
      flush_last good part room,
      unfold busy in omega (arith, length-append q ((r ∷ batch) ∷ [])),
    )

    part-Moves :
        (rest batch : List Row) (q : List (List Row)) (c : Consumer Row) (x : Bool) (a : State)
        (n : ℕ)
        → length q < queue_size s
        → length batch < batch_size
        → Moves (pipe (reading rest batch) q c x a n)
    part-Moves (r ∷ rest) batch q c x a n room part = (
      pipe (reading rest (batch ++ r ∷ [])) q c x a n,
      read part,
      unfold busy in omega (arith, length-append batch (r ∷ [])),
    )
    part-Moves [] batch q c x a n room part = elim (Bool-cases fault) [
      | inl bad ↦ (pipe failed q c true a n, fail bad part, unfold busy in omega arith)
      | inr good ↦ last-Moves batch q c x a n good room part
    ]

    -- The reading goroutine moves while the channel has room.
    reader-Moves :
        (rest batch : List Row) (q : List (List Row)) (c : Consumer Row) (x : Bool) (a : State)
        (n : ℕ)
        → length q < queue_size s
        → Moves (pipe (reading rest batch) q c x a n)
    reader-Moves rest batch q c x a n room = elim (Bool-cases (leb batch_size (length batch))) [
      | inl full ↦
          let enough : batch_size ≤ length batch = ground arith in
          (
            pipe (reading rest []) (q ++ batch ∷ []) c x a n,
            flush enough room,
            unfold busy in omega (arith, length-append q (batch ∷ [])),
          )
      | inr part ↦ part-Moves rest batch q c x a n room (ground arith)
    ]

    insert-Moves :
        (p : Producer Row) (q : List (List Row)) (b : List Row) (x : Bool) (a : State) (n : ℕ)
        → Moves (pipe p q (inserting b) x a n)
    insert-Moves p q b x a n = elim (Bool-cases (send name b a).0) [
      | inl good ↦ (
        pipe p q waiting x (send name b a).1 (n + length b),
        insert good,
        unfold busy in omega arith,
      )
      | inr bad ↦
          (pipe p q broken true (send name b a).1 n, insert_fails bad, unfold busy in omega arith)
    ]

    receive-Moves :
        (p : Producer Row) (b : List Row) (q : List (List Row)) (x : Bool) (a : State) (n : ℕ)
        → Moves (pipe p (b ∷ q) waiting x a n)
    receive-Moves p b q x a n = (pipe p q (inserting b) x a n, receive, unfold busy in omega arith)

    live-Moves : (p : Pipe s) → IsLive p → IsOver s p ⊎ Moves p
    live-Moves (pipe p q (inserting b) x a n) live = inr (insert-Moves p q b x a n)
    live-Moves (pipe p (b ∷ q) waiting x a n) live = inr (receive-Moves p b q x a n)
    live-Moves (pipe (reading rest batch) [] waiting x a n) live =
        inr (reader-Moves rest batch [] waiting x a n (omega arith))
    live-Moves (pipe returned [] waiting x a n) live =
        inr (pipe returned [] finished x a n, drained on_return, unfold busy in omega arith)
    live-Moves (pipe failed [] waiting x a n) live =
        inr (pipe failed [] finished x a n, drained on_failure, unfold busy in omega arith)
    live-Moves (pipe (reading rest batch) q finished x a n) (both_run closed cancelled) =
        absurd (not_reading (closed refl))
    live-Moves (pipe returned q finished x a n) live = inl went_well
    live-Moves (pipe failed q finished x a n) live = inl reader_failed
    live-Moves (pipe (reading rest batch) q broken true a n) live =
        inr (pipe failed q broken true a n, stop, unfold busy in omega arith)
    live-Moves (pipe (reading rest batch) q broken false a n) (both_run closed cancelled) =
        cc (cancelled refl)
    live-Moves (pipe returned q broken x a n) live = inl (insert_failed on_return)
    live-Moves (pipe failed q broken x a n) live = inl (insert_failed on_failure)

    -- There is no deadlock: whatever a transfer has come to, it is over, or one of its goroutines can take
    -- a step that leaves both with less to do.
    pub transfer-Moves :
        (rows : List Row) (a : State) (p : Pipe s)
        → Reachable s name batch_size fault (start s rows a) p
        → IsOver s p ⊎ Moves p
    transfer-Moves rows a p run =
        live-Moves p (Reachable-IsLive (start s rows a) p (start-IsLive rows a) run)

    ends_within :
        (fuel : ℕ) (rows : List Row) (a : State) (p : Pipe s)
        → busy p < fuel
        → Reachable s name batch_size fault (start s rows a) p
        → (r : Pipe s) × Reachable s name batch_size fault (start s rows a) r × IsOver s r
    ends_within zero rows a p h run = absurd (omega arith)
    ends_within (suc fuel) rows a p h run = elim (transfer-Moves rows a p run) [
      | inl over ↦ (p, run, over)
      | inr (r, step, less) ↦ ends_within fuel rows a r (omega arith) (there run step)
    ]

    -- From wherever it is, a transfer can be run to its end.
    pub transfer_ends :
        (rows : List Row) (a : State) (p : Pipe s)
        → Reachable s name batch_size fault (start s rows a) p
        → (r : Pipe s) × Reachable s name batch_size fault (start s rows a) r × IsOver s r
    transfer_ends rows a p run = ends_within (suc (busy p)) rows a p (omega arith) run
