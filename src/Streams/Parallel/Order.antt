-- ===== src/Streams/Parallel/Order.antt =====
-- Where the items are while the goroutines run.
use fie_importer.Prelude.{
  ℕ, ◌+◌, ◌≡◌, refl, Bool, true, false, List, [], ◌∷◌, ◌++◌, map, arith, length, All, All-map,
}
use fie_importer.Prelude.Bag.{total, total-append}
use fie_importer.Streams.Parallel.{
  Producer, producing, closed, Worker, ranging, calling, finished, broken, Group, running, Step,
  send, hand_over, close, stop, give_up, receive, call, call_fails, finish, cancel, Reachable, here,
  there, IsClosed, Runs, then_run,
}

module _ {T State : Type 0} (f : ℕ → T → State → Bool × State) where
  abbrev left : Producer T → List T
  left (producing items) = items
  left closed = []

  abbrev held : Worker T → List T
  held ranging = []
  held (calling t) = t ∷ []
  held finished = []
  held broken = []

  abbrev pub all_held : List (Worker T) → List T
  all_held [] = []
  all_held (w ∷ ws) = held w ++ all_held ws

  module _ (weight : T → ℕ) where
    total-held :
        (front back : List (Worker T)) (w : Worker T)
        → total weight (all_held (front ++ w ∷ back))
          ≡ total weight (held w) + total weight (all_held (front ++ back))
    total-held [] back w = total-append weight (held w) (all_held back)
    total-held (x ∷ front) back w = omega (
      arith,
      total-append weight (held x) (all_held (front ++ w ∷ back)),
      total-append weight (held x) (all_held (front ++ back)),
      total-held front back w,
    )

    total-items :
        (done : List (ℕ × T)) (l : ℕ) (t : T)
        → total weight (map (λ c. c.1) (done ++ (l, t) ∷ []))
          ≡ total weight (map (λ c. c.1) done) + weight t
    total-items [] l t = omega arith
    total-items (c ∷ done) l t = omega (arith, total-items done l t)

  -- What a worker's state tells of the others
  abbrev pub Fits : Producer T → List T → Bool → Worker T → Type 0
  Fits p q e ranging = Unit
  Fits p q e (calling t) = Unit
  Fits p q e finished = (q ≡ []) × IsClosed f p
  Fits p q e broken = e ≡ true

  Fits-map :
      (p p' : Producer T) (q q' : List T) (e e' : Bool)
      → ((q ≡ []) × IsClosed f p → (q' ≡ []) × IsClosed f p')
      → (e ≡ true → e' ≡ true)
      → (w : Worker T) → Fits p q e w
      → Fits p' q' e' w
  Fits-map p p' q q' e e' g h ranging fits = tt
  Fits-map p p' q q' e e' g h (calling t) fits = tt
  Fits-map p p' q q' e e' g h finished fits = g fits
  Fits-map p p' q q' e e' g h broken fits = h fits

  Fits-All :
      (p p' : Producer T) (q q' : List T) (e e' : Bool) (ws : List (Worker T))
      → ((q ≡ []) × IsClosed f p → (q' ≡ []) × IsClosed f p')
      → (e ≡ true → e' ≡ true)
      → All (Fits p q e) ws
      → All (Fits p' q' e') ws
  Fits-All p p' q q' e e' ws g h all = All-map _ _ (Fits-map p p' q q' e e' g h) ws all

  replaced :
      (P : Worker T → Type 0) (front back : List (Worker T)) (w v : Worker T)
      → P v
      → All P (front ++ w ∷ back)
      → All P (front ++ v ∷ back)
  replaced P [] back w v pv (pw, h) = (pv, h)
  replaced P (x ∷ front) back w v pv (px, h) = (px, replaced P front back w v pv h)

  the_middle :
      (P : Worker T → Type 0) (front back : List (Worker T)) (w : Worker T)
      → All P (front ++ w ∷ back)
      → P w
  the_middle P [] back w (pw, h) = pw
  the_middle P (x ∷ front) back w (px, h) = the_middle P front back w h

  module _ (items : List T) (from : State) where
    -- Where the items are, while no goroutine returned an error.
    pub record IsFlowing (p : Producer T) (q : List T) (ws : List (Worker T)) (a : State)
        (done : List (ℕ × T)) : Type 0 where
      pub ran : Runs f done from a
      pub kept :
          (weight : T → ℕ)
          → total weight (map (λ c. c.1) done)
              + total weight (all_held ws)
              + total weight q
              + total weight (left p)
            ≡ total weight items

    abbrev pub IsSound : Group f → Type 0
    IsSound (running p q ws x e a done) =
        All (Fits p q e) ws × (e ≡ false → IsFlowing p q ws a done)

    step-IsSound : (k : ℕ) (g h : Group f) → Step f k g h → IsSound g → IsSound h
    step-IsSound k _ _ (send {t} {rest} {q} {ws} {x} {e} {a} {done} room) (fits, flow) = (
      Fits-All (producing (t ∷ rest)) (producing rest) q (q ++ t ∷ []) e e ws
          (λ both. absurd both.1) (λ same. same) fits,
      λ good. record {
        ran = (flow good).ran;
        kept = λ weight. omega (arith, (flow good).kept weight, total-append weight q (t ∷ []));
      },
    )
    step-IsSound k _ _ (hand_over {t} {rest} front back {x} {e} {a} {done}) (fits, flow) = (
      replaced _ front back ranging (calling t) tt (
          Fits-All (producing (t ∷ rest)) (producing rest) [] [] e e _ (λ both. absurd both.1)
            (λ same. same) fits),
      λ good. record {
        ran = (flow good).ran;
        kept = λ weight. omega (
          arith,
          (flow good).kept weight,
          total-held weight front back ranging,
          total-held weight front back (calling t),
        );
      },
    )
    step-IsSound k _ _ (close {q} {ws} {x} {e} {a} {done}) (fits, flow) = (
      Fits-All (producing []) closed q q e e ws (λ both. absurd both.1) (λ same. same) fits,
      λ good. record {
        ran = (flow good).ran;
        kept = λ weight. omega (arith, (flow good).kept weight);
      },
    )
    step-IsSound k _ _ (stop {t} {rest} {q} {ws} {e} {a} {done}) (fits, flow) = (
      Fits-All (producing (t ∷ rest)) closed q q e true ws (λ both. absurd both.1) (λ same. refl)
          fits,
      λ good. absurd (cc),
    )
    step-IsSound k _ _ (give_up {t} {rest} {q} {ws} {a} {done}) (fits, flow) = (
      Fits-All (producing (t ∷ rest)) closed q q true true ws (λ both. absurd both.1) (λ same. refl)
          fits,
      λ good. absurd (cc),
    )
    step-IsSound k _ _ (receive {p} {t} {q} front back {x} {e} {a} {done}) (fits, flow) = (
      replaced _ front back ranging (calling t) tt
          (Fits-All p p (t ∷ q) q e e _ (λ both. absurd (cc (both.0))) (λ same. same) fits),
      λ good. record {
        ran = (flow good).ran;
        kept = λ weight. omega (
          arith,
          (flow good).kept weight,
          total-held weight front back ranging,
          total-held weight front back (calling t),
        );
      },
    )
    step-IsSound k _ _ (call {p} {q} {t} front back {x} {e} {a} {done} worked) (fits, flow) = (
      replaced _ front back (calling t) ranging tt fits,
      λ good. record {
        ran = then_run (flow good).ran worked;
        kept = λ weight. omega (
          arith,
          (flow good).kept weight,
          total-held weight front back ranging,
          total-held weight front back (calling t),
          total-items weight done (length front) t,
        );
      },
    )
    step-IsSound k _ _ (call_fails {p} {q} {t} front back {x} {e} {a} {done} bad) (fits, flow) = (
      replaced _ front back (calling t) broken refl
          (Fits-All p p q q e true _ (λ both. both) (λ same. refl) fits),
      λ good. absurd (cc),
    )
    step-IsSound k _ _ (finish front back {x} {e} {a} {done}) (fits, flow) = (
      replaced _ front back ranging finished (refl, tt) fits,
      λ good. record {
        ran = (flow good).ran;
        kept = λ weight. omega (
          arith,
          (flow good).kept weight,
          total-held weight front back ranging,
          total-held weight front back finished,
        );
      },
    )
    step-IsSound k _ _ (cancel {p} {q} {ws} {e} {a} {done}) (fits, flow) = (fits, flow)

    pub Reachable-IsSound : (k : ℕ) (g h : Group f) → IsSound g → Reachable f k g h → IsSound h
    Reachable-IsSound k g _ sound here = sound
    Reachable-IsSound k g _ sound (there {h} {r} run step) =
        step-IsSound k h r step (Reachable-IsSound k g h sound run)
