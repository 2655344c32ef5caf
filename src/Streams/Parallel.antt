-- ===== src/Streams/Parallel.antt =====
-- deprecated/internal/streams/parallel_foreach.go: `ParallelForEach` and `ParallelForEach2`, which differ in
-- the type of an item only (a value, or a value with an error). The goroutines are a step relation.
pub mod Order
pub mod Workers
pub mod Ends
use fie_importer.Prelude.{
  ℕ, ◌<◌, ◌≡◌, Bool, true, false, not, Option, none, some, List, [], ◌∷◌, ◌++◌, if◌then◌else◌,
  length, replicate, All, ℤ, pos, ltb_ℤ, leb_ℤ,
}

-- The goroutine that sends the items, with those that it has left. It closes `tChan` when it returns.
pub data Producer (T : Type 0) : Type 0 where
  producing : List T → Producer T
  closed : Producer T

pub data Worker (T : Type 0) : Type 0 where
  ranging : Worker T
  -- in its call of `f`
  calling : T → Worker T
  finished broken : Worker T

-- `n <= 0` and `k < 0`
pub data StartError : Type 0 where
  no_workers negative_buffer : StartError

unfoldable pub check_start : ℤ → ℤ → Option StartError
check_start n k =
    if leb_ℤ n (pos 0)
    then some no_workers
    else if ltb_ℤ k (pos 0)
    then some negative_buffer
    else none

-- `f` changes a state that the workers share; the number is the worker's index.
module _ {T State : Type 0} (f : ℕ → T → State → Bool × State) where
  -- All goroutines, `tChan`, whether `ctx` is cancelled, whether one of them returned an error (errgroup
  -- then cancels `childCtx`), the shared state, and the calls of `f` so far that returned nil.
  pub data Group : Type 0 where
    running : Producer T → List T → List (Worker T) → Bool → Bool → State → List (ℕ × T) → Group

  unfoldable pub start : ℕ → List T → State → Group
  start n items a = running (producing items) [] (replicate n ranging) false false a []

  -- One step of a goroutine, or of the caller's context; `k` is the capacity of `tChan`.
  pub data Step (k : ℕ) : Group → Group → Type 0 where
    send :
        {t : T} {rest q : List T} {ws : List (Worker T)} {x e : Bool} {a : State}
        {done : List (ℕ × T)}
        → length q < k
        → Step k
            (running (producing (t ∷ rest)) q ws x e a done)
            (running (producing rest) (q ++ t ∷ []) ws x e a done)
    -- A worker takes the item from the producer, which needs no buffer.
    hand_over :
        {t : T} {rest : List T} (front back : List (Worker T)) {x e : Bool} {a : State}
        {done : List (ℕ × T)}
        → Step k
            (running (producing (t ∷ rest)) [] (front ++ ranging ∷ back) x e a done)
            (running (producing rest) [] (front ++ calling t ∷ back) x e a done)
    close :
        {q : List T} {ws : List (Worker T)} {x e : Bool} {a : State} {done : List (ℕ × T)}
        → Step k (running (producing []) q ws x e a done) (running closed q ws x e a done)
    -- `ctx.Err()` behind `<-childCtx.Done()`
    stop :
        {t : T} {rest q : List T} {ws : List (Worker T)} {e : Bool} {a : State}
        {done : List (ℕ × T)}
        → Step k
            (running (producing (t ∷ rest)) q ws true e a done)
            (running closed q ws true true a done)
    -- `return nil` there: a worker failed, and `ctx` is not cancelled.
    give_up :
        {t : T} {rest q : List T} {ws : List (Worker T)} {a : State} {done : List (ℕ × T)}
        → Step k
            (running (producing (t ∷ rest)) q ws false true a done)
            (running closed q ws false true a done)
    receive :
        {p : Producer T} {t : T} {q : List T} (front back : List (Worker T)) {x e : Bool}
        {a : State} {done : List (ℕ × T)}
        → Step k
            (running p (t ∷ q) (front ++ ranging ∷ back) x e a done)
            (running p q (front ++ calling t ∷ back) x e a done)
    call :
        {p : Producer T} {q : List T} {t : T} (front back : List (Worker T)) {x e : Bool}
        {a : State} {done : List (ℕ × T)}
        → (f (length front) t a).0 ≡ true
        → Step k (running p q (front ++ calling t ∷ back) x e a done) (
            running p q
              (front ++ ranging ∷ back)
              x
              e
              (f (length front) t a).1
              (done ++ (length front, t) ∷ []))
    call_fails :
        {p : Producer T} {q : List T} {t : T} (front back : List (Worker T)) {x e : Bool}
        {a : State} {done : List (ℕ × T)}
        → (f (length front) t a).0 ≡ false
        → Step k
            (running p q (front ++ calling t ∷ back) x e a done)
            (running p q (front ++ broken ∷ back) x true (f (length front) t a).1 done)
    -- The range over the closed channel ends.
    finish :
        (front back : List (Worker T)) {x e : Bool} {a : State} {done : List (ℕ × T)}
        → Step k
            (running closed [] (front ++ ranging ∷ back) x e a done)
            (running closed [] (front ++ finished ∷ back) x e a done)
    -- The caller cancels `ctx`.
    cancel :
        {p : Producer T} {q : List T} {ws : List (Worker T)} {e : Bool} {a : State}
        {done : List (ℕ × T)}
        → Step k (running p q ws false e a done) (running p q ws true e a done)

  pub data Reachable (k : ℕ) (g : Group) : Group → Type 0 where
    here : Reachable k g g
    there : {h r : Group} → Reachable k g h → Step k h r → Reachable k g r

  abbrev pub HasReturned : Worker T → Type 0
  HasReturned ranging = ⊥
  HasReturned (calling t) = ⊥
  HasReturned finished = Unit
  HasReturned broken = Unit

  abbrev pub IsClosed : Producer T → Type 0
  IsClosed (producing items) = ⊥
  IsClosed closed = Unit

  -- `g.Wait()` returns: every goroutine has.
  abbrev pub IsOver : Group → Type 0
  IsOver (running p q ws x e a done) = IsClosed p × All HasReturned ws

  -- Does `g.Wait()` return nil?
  abbrev pub result : Group → Bool
  result (running p q ws x e a done) = not e

  abbrev pub calls : Group → List (ℕ × T)
  calls (running p q ws x e a done) = done

  abbrev pub state : Group → State
  state (running p q ws x e a done) = a

  -- The calls one after the other, all of which return nil.
  pub data Runs : List (ℕ × T) → State → State → Type 0 where
    none_run : {a : State} → Runs [] a a
    then_run :
        {l : ℕ} {t : T} {done : List (ℕ × T)} {a b : State}
        → Runs done a b
        → (f l t b).0 ≡ true
        → Runs (done ++ (l, t) ∷ []) a (f l t b).1
