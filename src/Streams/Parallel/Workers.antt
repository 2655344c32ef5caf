-- ===== src/Streams/Parallel/Workers.antt =====
-- `ParallelForEach` calls `f` for every item.
use fie_importer.Prelude.{
  ℕ, zero, suc, ◌≤◌, ◌≡◌, refl, ap, ◌∙◌, Bool, true, false, List, [], ◌∷◌, ◌++◌, map, arith, length,
  replicate, All,
}
use fie_importer.Prelude.Bag.{total, SameItems}
use fie_importer.Streams.Parallel.{
  Producer, producing, closed, Worker, ranging, calling, finished, broken, Group, running, start,
  Step, send, hand_over, close, stop, give_up, receive, call, call_fails, finish, cancel, Reachable,
  here, there, HasReturned, IsOver, result, calls, state, Runs, none_run,
}
use fie_importer.Streams.Parallel.Order.{all_held, Fits, IsSound, Reachable-IsSound}

module _ {T State : Type 0} (f : ℕ → T → State → Bool × State) where
  abbrev pub workers : Group f → List (Worker T)
  workers (running p q ws x e a done) = ws

  same_length :
      (front back : List (Worker T)) (w v : Worker T)
      → length (front ++ v ∷ back) ≡ length (front ++ w ∷ back)
  same_length [] back w v = refl
  same_length (x ∷ front) back w v = ap suc (same_length front back w v)

  pub step-workers :
      (k : ℕ) (g h : Group f) → Step f k g h → length (workers h) ≡ length (workers g)
  step-workers k _ _ (send room) = refl
  step-workers k _ _ (hand_over front back) = same_length front back _ _
  step-workers k _ _ close = refl
  step-workers k _ _ stop = refl
  step-workers k _ _ give_up = refl
  step-workers k _ _ (receive front back) = same_length front back _ _
  step-workers k _ _ (call front back worked) = same_length front back _ _
  step-workers k _ _ (call_fails front back bad) = same_length front back _ _
  step-workers k _ _ (finish front back) = same_length front back _ _
  step-workers k _ _ cancel = refl

  pub Reachable-workers :
      (k : ℕ) (g h : Group f) → Reachable f k g h → length (workers h) ≡ length (workers g)
  Reachable-workers k g _ here = refl
  Reachable-workers k g _ (there {h} {r} run step) =
      step-workers k h r step ∙ Reachable-workers k g h run

  length-replicate : (n : ℕ) (w : Worker T) → length (replicate n w) ≡ n
  length-replicate zero w = refl
  length-replicate (suc n) w = ap suc (length-replicate n w)

  replicate-Fits :
      (p : Producer T) (q : List T) (e : Bool) (n : ℕ) → All (Fits f p q e) (replicate n ranging)
  replicate-Fits p q e zero = tt
  replicate-Fits p q e (suc n) = (tt, replicate-Fits p q e n)

  nothing_held : (n : ℕ) → all_held f (replicate n ranging) ≡ []
  nothing_held zero = refl
  nothing_held (suc n) = nothing_held n

  module _ (items : List T) (from : State) where
    pub start-IsSound : (n : ℕ) → IsSound f items from (start f n items from)
    unfolding start
    start-IsSound n = (
      replicate-Fits (producing items) [] false n,
      λ good. record {
        ran = none_run;
        kept = λ weight. omega (arith, ap (total weight) (nothing_held n));
      },
    )

    pub start-workers : (n : ℕ) → length (workers (start f n items from)) ≡ n
    unfolding start
    start-workers n = length-replicate n ranging

    -- Once all workers have returned and none failed, none holds an item and the channel is empty.
    All-returned :
        (p : Producer T) (q : List T) (ws : List (Worker T))
        → All (HasReturned f) ws
        → All (Fits f p q false) ws
        → all_held f ws ≡ []
    All-returned p q [] h fits = refl
    All-returned p q (ranging ∷ ws) (hw, h) fits = absurd hw
    All-returned p q (calling t ∷ ws) (hw, h) fits = absurd hw
    All-returned p q (finished ∷ ws) (hw, h) (fw, fits) = All-returned p q ws h fits
    All-returned p q (broken ∷ ws) (hw, h) (fw, fits) = absurd (cc)

    drained_queue :
        (p : Producer T) (q : List T) (ws : List (Worker T))
        → 1 ≤ length ws
        → All (HasReturned f) ws
        → All (Fits f p q false) ws
        → q ≡ []
    drained_queue p q [] some_worker h fits = absurd (omega arith)
    drained_queue p q (ranging ∷ ws) some_worker (hw, h) fits = absurd hw
    drained_queue p q (calling t ∷ ws) some_worker (hw, h) fits = absurd hw
    drained_queue p q (finished ∷ ws) some_worker (hw, h) (fw, fits) = fw.0
    drained_queue p q (broken ∷ ws) some_worker (hw, h) (fw, fits) = absurd (cc)

    over_items :
        (g : Group f)
        → 1 ≤ length (workers g)
        → IsSound f items from g
        → IsOver f g
        → result f g ≡ true
        → Runs f (calls f g) from (state f g) × SameItems (map (λ c. c.1) (calls f g)) items
    over_items (running (producing rest) q ws x e a done) some_worker sound over good =
        absurd over.0
    over_items (running closed q ws x true a done) some_worker sound over good = absurd (cc)
    over_items (running closed q ws x false a done) some_worker (fits, flow) over good =
        let held = All-returned closed q ws over.1 fits in
        let empty = drained_queue closed q ws some_worker over.1 fits in
        (
          (flow refl).ran,
          λ weight.
              omega
                (arith, (flow refl).kept weight, ap (total weight) held, ap (total weight) empty),
        )

    -- However the goroutines are scheduled: if `ParallelForEach` with at least one worker returns nil, then
    -- `f` was called once for each item, and each call returned nil. The shared state is what these calls
    -- leave, in the order in which they returned.
    pub parallel_for_each_result :
        (n k : ℕ) (g : Group f)
        → 1 ≤ n
        → Reachable f k (start f n items from) g
        → IsOver f g
        → result f g ≡ true
        → Runs f (calls f g) from (state f g) × SameItems (map (λ c. c.1) (calls f g)) items
    parallel_for_each_result n k g positive run over good =
        over_items g
          (omega (arith, Reachable-workers k (start f n items from) g run, start-workers n))
          (Reachable-IsSound f items from k (start f n items from) g (start-IsSound n) run) over
          good
