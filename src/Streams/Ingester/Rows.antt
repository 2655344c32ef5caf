-- ===== src/Streams/Ingester/Rows.antt =====
-- The rows of the workers' writers while a stream is ingested.
use fie_importer.Prelude.{
  ℕ, zero, suc, ◌+◌, ◌≡◌, refl, sym, ap, ◌∙◌, inl, inr, Bool, true, Option, none, some, List, [],
  ◌∷◌, ◌++◌, map, append_assoc, append-nil, arith, Bool-cases, get_elem?, All,
}
use fie_importer.Prelude.Bytes.{Bytes}
use fie_importer.Prelude.Bag.{total, total-append}
use fie_importer.Clickhouse.Server.{Server, IsServer}
use fie_importer.Streams.BatchWriter.{Writer, flush, append}
use fie_importer.Streams.BatchWriter.Sent.{pending, IsCounted, Advances, flush_lem}
use fie_importer.Streams.BatchWriter.Appended.{append_lem}
use fie_importer.Streams.Parallel.{Runs, none_run, then_run}
use fie_importer.Streams.Items.{values, errors, values-append, errors-append}
use fie_importer.Streams.Ingester.{set_elem, parallel_func, append_value, flush_all, Shared}

map-append {ℓ κ} :
    {A : Type ℓ} {B : Type κ} (f : A → B) (xs ys : List A) → map f (xs ++ ys) ≡ map f xs ++ map f ys
map-append f [] ys = refl
map-append f (x ∷ xs) ys = ap (λ l. f x ∷ l) (map-append f xs ys)

module _ {Row : Type 0} where
  -- The rows that wait in all writers
  abbrev pub all_pending : List (Writer Row) → List Row
  all_pending [] = []
  all_pending (w ∷ ws) = pending w ++ all_pending ws

  total-set_elem :
      (weight : Row → ℕ) (l : ℕ) (ws : List (Writer Row)) (w v : Writer Row)
      → get_elem? ws l ≡ some w
      → total weight (all_pending (set_elem l v ws)) + total weight (pending w)
        ≡ total weight (all_pending ws) + total weight (pending v)
  total-set_elem weight l [] w v h = absurd (cc)
  total-set_elem weight zero (x ∷ ws) w v h =
      let same : x ≡ w = cc in
      omega (
        arith,
        total-append weight (pending v) (all_pending ws),
        total-append weight (pending x) (all_pending ws),
        ap (λ y. total weight (pending y)) same,
      )
  total-set_elem weight (suc l) (x ∷ ws) w v h = omega (
    arith,
    total-append weight (pending x) (all_pending (set_elem l v ws)),
    total-append weight (pending x) (all_pending ws),
    total-set_elem weight l ws w v h,
  )

  get-All :
      (P : Writer Row → Type 0) (l : ℕ) (ws : List (Writer Row)) (w : Writer Row)
      → get_elem? ws l ≡ some w
      → All P ws
      → P w
  get-All P l [] w h all = absurd (cc)
  get-All P zero (x ∷ ws) w h (px, all) = let same : x ≡ w = cc in rw (← same) px
  get-All P (suc l) (x ∷ ws) w h (px, all) = get-All P l ws w h all

  set_elem-All :
      (P : Writer Row → Type 0) (l : ℕ) (ws : List (Writer Row)) (v : Writer Row)
      → P v
      → All P ws
      → All P (set_elem l v ws)
  set_elem-All P l [] v pv all = tt
  set_elem-All P zero (x ∷ ws) v pv (px, all) = (pv, all)
  set_elem-All P (suc l) (x ∷ ws) v pv (px, all) = (px, set_elem-All P l ws v pv all)

  -- A writer of the table, which counts its batch.
  abbrev pub IsOurs : Bytes → Writer Row → Type 0
  IsOurs name w = IsCounted w × (w.table_name ≡ name)

module _ {T Row : Type 0} (s : Server Row) (laws : IsServer s) (row_of : T → Row)
    (prepare : s.State → Bool) (accepts : Row → Bool) (name : Bytes) where
  open s use {State, table}

  -- The rows given to the writers since the table held `before`: they are in the table, or pending.
  pub record HasRows (before : List Row) (given : List (Option T)) (ws : List (Writer Row))
      (a : State) : Type 0 where
    pub sent : List Row
    pub stored : table a name ≡ some (before ++ sent)
    pub kept :
        (weight : Row → ℕ)
        → total weight sent + total weight (all_pending ws)
          ≡ total weight (map row_of (values given))
    pub no_errors : errors given ≡ 0
    pub ours : All (IsOurs name) ws

  abbrev func :
      ℕ → Option T → Shared s row_of prepare accepts → Bool × Shared s row_of prepare accepts
  func = parallel_func s row_of prepare accepts

  value-HasRows :
      (before : List Row) (given : List (Option T)) (l : ℕ) (v : T) (o : Option (Writer Row))
      (ws : List (Writer Row)) (a : State)
      → get_elem? ws l ≡ o
      → HasRows before given ws a
      → (append_value s row_of prepare accepts l v o ws a).0 ≡ true
      → HasRows before
          (given ++ some v ∷ [])
          ((append_value s row_of prepare accepts l v o ws a).1).0
          ((append_value s row_of prepare accepts l v o ws a).1).1
  value-HasRows before given l v none ws a e h worked = absurd (cc)
  value-HasRows before given l v (some w) ws a e h worked =
      let (counted, named) = get-All (IsOurs name) l ws w e h.ours in
      let (one, room) = append_lem s laws prepare accepts w (row_of v) a counted worked in
      let after = (append s prepare accepts w (row_of v) a).1 in
      let b = (append s prepare accepts w (row_of v) a).2 in
      record {
        sent = h.sent ++ one.sent;
        stored =
            ap (λ n. table b n) (sym named)
            ∙ one.stored (before ++ h.sent) (ap (λ n. table a n) named ∙ h.stored)
            ∙ ap (λ l. some l) (append_assoc before h.sent one.sent);
        kept = λ weight. omega (
          arith,
          h.kept weight,
          total-set_elem weight l ws w after e,
          ap (total weight) one.in_order,
          total-append weight one.sent (pending after),
          total-append weight (pending w) (row_of v ∷ []),
          total-append weight h.sent one.sent,
          ap (λ x. total weight (map row_of x)) (values-append given (some v ∷ [])),
          ap (total weight) (map-append row_of (values given) (v ∷ [])),
          total-append weight (map row_of (values given)) (row_of v ∷ []),
        );
        no_errors = errors-append given (some v ∷ []) ∙ omega (arith, h.no_errors);
        ours = set_elem-All (IsOurs name) l ws after (one.counted, one.same_name ∙ named) h.ours;
      }

  func-HasRows :
      (before : List Row) (given : List (Option T)) (l : ℕ) (item : Option T)
      (ws : List (Writer Row)) (a : State)
      → HasRows before given ws a
      → (func l item (ws, a)).0 ≡ true
      → HasRows before (given ++ item ∷ []) ((func l item (ws, a)).1).0 ((func l item (ws, a)).1).1
  unfolding parallel_func
  func-HasRows before given l none ws a h worked = absurd (cc)
  func-HasRows before given l (some v) ws a h worked =
      value-HasRows before given l v (get_elem? ws l) ws a refl h worked

  -- The calls of the workers, one after the other, keep all rows.
  pub Runs-HasRows :
      (before : List Row) (done : List (ℕ × Option T)) (from to : Shared s row_of prepare accepts)
      → Runs func done from to
      → HasRows before [] from.0 from.1
      → HasRows before (map (λ c. c.1) done) to.0 to.1
  Runs-HasRows before _ from _ none_run h = h
  Runs-HasRows before _ from _ (then_run {l} {t} {done} {a} {b} ran worked) h =
      rw (map-append (λ (c : ℕ × Option T). c.1) done ((l, t) ∷ []))
        (func-HasRows before _ l t b.0 b.1 (Runs-HasRows before done from b ran h) worked)

  -- What the loop of `worker.Flush()` sends
  pub record AreSent (rows : List Row) (a b : State) : Type 0 where
    pub sent : List Row
    pub stored : (held : List Row) → table a name ≡ some held → table b name ≡ some (held ++ sent)
    pub all_sent : (weight : Row → ℕ) → total weight sent ≡ total weight rows

  both-AreSent :
      (w v : Writer Row) (rows : List Row) (a b c : State)
      → w.table_name ≡ name
      → Advances s w v [] a b
      → pending v ≡ []
      → AreSent rows b c
      → AreSent (pending w ++ rows) a c
  both-AreSent w v rows a b c named first empty rest = record {
    sent = first.sent ++ rest.sent;
    stored = λ held was.
        rest.stored (held ++ first.sent)
          (ap (λ n. table b n) (sym named) ∙ first.stored held (ap (λ n. table a n) named ∙ was))
        ∙ ap (λ l. some l) (append_assoc held first.sent rest.sent);
    all_sent = λ weight. omega (
      arith,
      rest.all_sent weight,
      total-append weight first.sent rest.sent,
      total-append weight (pending w) rows,
      ap (total weight) first.in_order,
      total-append weight first.sent (pending v),
      ap (total weight) empty,
      ap (total weight) (append-nil (pending w)),
    );
  }

  pub flush_all-AreSent :
      (ws : List (Writer Row)) (a : State)
      → All (IsOurs name) ws
      → (flush_all s row_of prepare accepts ws a).0 ≡ true
      → AreSent (all_pending ws) a (flush_all s row_of prepare accepts ws a).1
  unfolding flush_all
  flush_all-AreSent [] a ours worked = record {
    sent = [];
    stored = λ held was. was ∙ ap (λ l. some l) (sym (append-nil held));
    all_sent = λ weight. refl;
  }
  flush_all-AreSent (w ∷ ws) a ((counted, named), ours) worked = elim (Bool-cases (flush s w a).0) [
    | inr bad ↦ absurd (cc (rw (flush_all, bad) at worked))
    | inl good ↦
        let (first, empty) = flush_lem s laws w a counted good in
        let rest = flush_all-AreSent ws (flush s w a).2 ours (rw (flush_all, good) at worked) in
        rw (flush_all, good)
          (both-AreSent w (flush s w a).1 (all_pending ws) a (flush s w a).2 _ named first empty
            rest)
  ]
