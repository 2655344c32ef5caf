-- ===== src/Streams/Parallel/Ends.antt =====
-- `ParallelForEach` ends.
use fie_importer.Prelude.{
  ℕ, zero, suc, ◌+◌, ◌*◌, ◌≤◌, ◌<◌, ◌≡◌, refl, ◌⊎◌, inl, inr, Bool, true, false, List, [], ◌∷◌,
  ◌++◌, arith, Bool-cases, length, length-append, All,
}
use fie_importer.Streams.Parallel.{
  Producer, producing, closed, Worker, ranging, calling, finished, broken, Group, running, start,
  Step, send, hand_over, close, stop, give_up, receive, call, call_fails, finish, cancel, Reachable,
  there, HasReturned, IsOver,
}
use fie_importer.Streams.Parallel.Order.{Fits, IsSound, Reachable-IsSound}
use fie_importer.Streams.Parallel.Workers.{workers, start-IsSound, Reachable-workers, start-workers}

module _ {T State : Type 0} (f : ℕ → T → State → Bool × State) where
  abbrev producer_work : Producer T → ℕ
  producer_work (producing rest) = 1 + 4 * length rest
  producer_work closed = 0

  abbrev worker_work : Worker T → ℕ
  worker_work ranging = 1
  worker_work (calling t) = 2
  worker_work finished = 0
  worker_work broken = 0

  abbrev all_work : List (Worker T) → ℕ
  all_work [] = 0
  all_work (w ∷ ws) = worker_work w + all_work ws

  -- What the goroutines have left to do.
  unfoldable pub busy : Group f → ℕ
  busy (running p q ws x e a done) = producer_work p + 2 * length q + all_work ws

  abbrev cancel_work : Group f → ℕ
  cancel_work (running p q ws true e a done) = 0
  cancel_work (running p q ws false e a done) = 1

  unfoldable pub work : Group f → ℕ
  work g = busy g + cancel_work g

  all_work-middle :
      (front back : List (Worker T)) (w : Worker T)
      → all_work (front ++ w ∷ back) ≡ worker_work w + all_work (front ++ back)
  all_work-middle [] back w = refl
  all_work-middle (x ∷ front) back w = omega (arith, all_work-middle front back w)

  -- No run goes on for ever: each step of a goroutine, and the cancellation, leave less work.
  pub parallel_step-work : (k : ℕ) (g h : Group f) → Step f k g h → work h < work g
  unfolding work busy
  parallel_step-work k _ _ (send {t} {rest} {q} {ws} {x} {e} {a} {done} room) =
      ground (arith, length-append q (t ∷ []))
  parallel_step-work k _ _ (hand_over {t} {rest} front back {x} {e} {a} {done}) =
      ground (arith, all_work-middle front back ranging, all_work-middle front back (calling t))
  parallel_step-work k _ _ (close {q} {ws} {x} {e} {a} {done}) = ground arith
  parallel_step-work k _ _ (stop {t} {rest} {q} {ws} {e} {a} {done}) = omega arith
  parallel_step-work k _ _ (give_up {t} {rest} {q} {ws} {a} {done}) = omega arith
  parallel_step-work k _ _ (receive {p} {t} {q} front back {x} {e} {a} {done}) =
      ground (arith, all_work-middle front back ranging, all_work-middle front back (calling t))
  parallel_step-work k _ _ (call {p} {q} {t} front back {x} {e} {a} {done} worked) =
      ground (arith, all_work-middle front back ranging, all_work-middle front back (calling t))
  parallel_step-work k _ _ (call_fails {p} {q} {t} front back {x} {e} {a} {done} bad) =
      ground (arith, all_work-middle front back broken, all_work-middle front back (calling t))
  parallel_step-work k _ _ (finish front back {x} {e} {a} {done}) =
      ground (arith, all_work-middle front back ranging, all_work-middle front back finished)
  parallel_step-work k _ _ (cancel {p} {q} {ws} {e} {a} {done}) = omega arith

  -- A worker that has not returned, or none.
  data Look : List (Worker T) → Type 0 where
    all_returned : {ws : List (Worker T)} → All (HasReturned f) ws → Look ws
    one_ranging : (front back : List (Worker T)) → Look (front ++ ranging ∷ back)
    one_calling : (front back : List (Worker T)) (t : T) → Look (front ++ calling t ∷ back)

  Look-further : (w : Worker T) (ws : List (Worker T)) → HasReturned f w → Look ws → Look (w ∷ ws)
  Look-further w ws h (all_returned hs) = all_returned (h, hs)
  Look-further w _ h (one_ranging front back) = one_ranging (w ∷ front) back
  Look-further w _ h (one_calling front back t) = one_calling (w ∷ front) back t

  look : (ws : List (Worker T)) → Look ws
  look [] = all_returned tt
  look (ranging ∷ ws) = one_ranging [] ws
  look (calling t ∷ ws) = one_calling [] ws t
  look (finished ∷ ws) = Look-further finished ws tt (look ws)
  look (broken ∷ ws) = Look-further broken ws tt (look ws)

  module _ (k : ℕ) where
    -- A step of a goroutine, rather than the cancellation.
    abbrev pub Moves : Group f → Type 0
    Moves g = (h : Group f) × Step f k g h × (busy h < busy g)

    calling-Moves :
        (p : Producer T) (q : List T) (front back : List (Worker T)) (t : T) (x e : Bool)
        (a : State) (done : List (ℕ × T))
        → Moves (running p q (front ++ calling t ∷ back) x e a done)
    calling-Moves p q front back t x e a done = elim (Bool-cases (f (length front) t a).0) [
      | inl good ↦ (
        running p q (front ++ ranging ∷ back) x e (f (length front) t a).1
            (done ++ (length front, t) ∷ []),
        call front back good,
        unfold busy in
            omega
              (arith, all_work-middle front back ranging, all_work-middle front back (calling t)),
      )
      | inr bad ↦ (
        running p q (front ++ broken ∷ back) x true (f (length front) t a).1 done,
        call_fails front back bad,
        unfold busy in
            omega
              (arith, all_work-middle front back broken, all_work-middle front back (calling t)),
      )
    ]

    close-Moves :
        (q : List T) (ws : List (Worker T)) (x e : Bool) (a : State) (done : List (ℕ × T))
        → Moves (running (producing []) q ws x e a done)
    close-Moves q ws x e a done =
        (running closed q ws x e a done, close, unfold busy in omega arith)

    ranging-Moves :
        (p : Producer T) (q : List T) (front back : List (Worker T)) (x e : Bool) (a : State)
        (done : List (ℕ × T))
        → Moves (running p q (front ++ ranging ∷ back) x e a done)
    ranging-Moves p (t ∷ q) front back x e a done = (
      running p q (front ++ calling t ∷ back) x e a done,
      receive front back,
      unfold busy in
          omega (arith, all_work-middle front back ranging, all_work-middle front back (calling t)),
    )
    ranging-Moves closed [] front back x e a done = (
      running closed [] (front ++ finished ∷ back) x e a done,
      finish front back,
      unfold busy in
          omega (arith, all_work-middle front back ranging, all_work-middle front back finished),
    )
    ranging-Moves (producing []) [] front back x e a done = close-Moves [] _ x e a done
    ranging-Moves (producing (t ∷ rest)) [] front back x e a done = (
      running (producing rest) [] (front ++ calling t ∷ back) x e a done,
      hand_over front back,
      unfold busy in
          omega (arith, all_work-middle front back ranging, all_work-middle front back (calling t)),
    )

    -- All workers have returned before the channel was closed: one of them has failed.
    one_failed :
        (t : T) (rest q : List T) (e : Bool) (ws : List (Worker T))
        → 1 ≤ length ws
        → All (HasReturned f) ws
        → All (Fits f (producing (t ∷ rest)) q e) ws
        → e ≡ true
    one_failed t rest q e [] some_worker h fits = absurd (omega arith)
    one_failed t rest q e (ranging ∷ ws) some_worker (hw, h) fits = absurd hw
    one_failed t rest q e (calling u ∷ ws) some_worker (hw, h) fits = absurd hw
    one_failed t rest q e (finished ∷ ws) some_worker (hw, h) (fw, fits) = absurd fw.1
    one_failed t rest q e (broken ∷ ws) some_worker (hw, h) (fw, fits) = fw

    returned-Moves :
        (p : Producer T) (q : List T) (ws : List (Worker T)) (x e : Bool) (a : State)
        (done : List (ℕ × T))
        → 1 ≤ length ws
        → All (HasReturned f) ws
        → All (Fits f p q e) ws
        → IsOver f (running p q ws x e a done) ⊎ Moves (running p q ws x e a done)
    returned-Moves closed q ws x e a done some_worker h fits = inl (tt, h)
    returned-Moves (producing []) q ws x e a done some_worker h fits =
        inr (close-Moves q ws x e a done)
    returned-Moves (producing (t ∷ rest)) q ws true e a done some_worker h fits =
        inr (running closed q ws true true a done, stop, unfold busy in omega arith)
    returned-Moves (producing (t ∷ rest)) q ws false true a done some_worker h fits =
        inr (running closed q ws false true a done, give_up, unfold busy in omega arith)
    returned-Moves (producing (t ∷ rest)) q ws false false a done some_worker h fits =
        absurd (cc (one_failed t rest q false ws some_worker h fits))

    Look-Moves :
        (p : Producer T) (q : List T) (ws : List (Worker T)) (x e : Bool) (a : State)
        (done : List (ℕ × T))
        → Look ws
        → 1 ≤ length ws
        → All (Fits f p q e) ws
        → IsOver f (running p q ws x e a done) ⊎ Moves (running p q ws x e a done)
    Look-Moves p q ws x e a done (all_returned h) some_worker fits =
        returned-Moves p q ws x e a done some_worker h fits
    Look-Moves p q _ x e a done (one_ranging front back) some_worker fits =
        inr (ranging-Moves p q front back x e a done)
    Look-Moves p q _ x e a done (one_calling front back t) some_worker fits =
        inr (calling-Moves p q front back t x e a done)

    sound-Moves :
        (items : List T) (from : State) (g : Group f)
        → 1 ≤ length (workers f g)
        → IsSound f items from g
        → IsOver f g ⊎ Moves g
    sound-Moves items from (running p q ws x e a done) some_worker sound =
        Look-Moves p q ws x e a done (look ws) some_worker sound.0

    -- There is no deadlock: with at least one worker, and whatever the capacity of the channel, the
    -- goroutines have all returned, or one of them can take a step that leaves them less to do.
    pub parallel_for_each-Moves :
        (n : ℕ) (items : List T) (from : State) (g : Group f)
        → 1 ≤ n
        → Reachable f k (start f n items from) g
        → IsOver f g ⊎ Moves g
    parallel_for_each-Moves n items from g positive run =
        sound-Moves items from g
          (omega (
            arith,
            Reachable-workers f k (start f n items from) g run,
            start-workers f items from n,
          ))
          (Reachable-IsSound f items from k (start f n items from) g (start-IsSound f items from n)
            run)

    IsOver-within :
        (fuel n : ℕ) (items : List T) (from : State) (g : Group f)
        → 1 ≤ n
        → busy g < fuel
        → Reachable f k (start f n items from) g
        → (h : Group f) × Reachable f k (start f n items from) h × IsOver f h
    IsOver-within zero n items from g positive less run = absurd (omega arith)
    IsOver-within (suc fuel) n items from g positive less run =
        elim (parallel_for_each-Moves n items from g positive run) [
          | inl over ↦ (g, run, over)
          | inr (h, step, smaller) ↦
              IsOver-within fuel n items from h positive (omega arith) (there run step)
        ]

    -- From wherever it is, `ParallelForEach` can be run to its end.
    pub parallel_for_each_ends :
        (n : ℕ) (items : List T) (from : State) (g : Group f)
        → 1 ≤ n
        → Reachable f k (start f n items from) g
        → (h : Group f) × Reachable f k (start f n items from) h × IsOver f h
    parallel_for_each_ends n items from g positive run =
        IsOver-within (suc (busy g)) n items from g positive (omega arith) run
