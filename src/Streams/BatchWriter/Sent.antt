-- ===== src/Streams/BatchWriter/Sent.antt =====
-- Where the rows are that a writer was given: sent, or pending in its batch.
use fie_importer.Prelude.{
  ℕ, ◌+◌, ◌≡◌, refl, sym, ap, ◌∙◌, inl, inr, Bool, true, false, Option, none, some, List, [], ◌∷◌,
  ◌++◌, append-nil, arith, ◌==◌, Bool-cases, ==_iff, length,
}
use fie_importer.Clickhouse.Server.{Server, IsServer}
use fie_importer.Streams.BatchWriter.{Writer, flush, flush_batch, sent_batch}

abbrev pub rows_in : {Row : Type 0} → Option (List Row) → List Row
rows_in none = []
rows_in (some b) = b

-- The rows that wait in the writer's batch
abbrev pub pending : {Row : Type 0} → Writer Row → List Row
pending w = rows_in w.batch

-- `Pending()` is the number of rows of the batch.
abbrev pub IsCounted : {Row : Type 0} → Writer Row → Type 0
IsCounted w = w.rows ≡ length (pending w)

module _ {Row : Type 0} (s : Server Row) where
  open s use {State, table, send}

  -- From `w` to `v` the writer took the rows `given`, and sent a part of what it then had.
  pub record Advances (w v : Writer Row) (given : List Row) (a b : State) : Type 0 where
    pub sent : List Row
    pub stored :
        (held : List Row)
        → table a w.table_name ≡ some held
        → table b w.table_name ≡ some (held ++ sent)
    pub in_order : sent ++ pending v ≡ pending w ++ given
    pub counted : IsCounted v
    pub same_name : v.table_name ≡ w.table_name
    pub same_size : v.batch_size ≡ w.batch_size
    pub total_is : v.total ≡ w.total + length given

  module _ (laws : IsServer s) where
    idle_Advances : (w : Writer Row) (a : State) → IsCounted w → Advances w w [] a a
    idle_Advances w a h = record {
      sent = [];
      stored = λ held e. e ∙ ap (λ l. some l) (sym (append-nil held));
      in_order = sym (append-nil (pending w));
      counted = h;
      same_name = refl;
      same_size = refl;
      total_is = omega arith;
    }

    -- What a `Flush` that succeeds leaves
    abbrev Flushed : Writer Row → State → Bool × Writer Row × State → Type 0
    Flushed w a (worked, v, b) = worked ≡ true → Advances w v [] a b × (pending v ≡ [])

    sent_Flushed :
        (w : Writer Row) (b : List Row) (a : State) (worked : Bool) (after : State)
        → w.batch ≡ some b
        → ((held : List Row)
            → worked ≡ true
            → table a w.table_name ≡ some held
            → table after w.table_name ≡ some (held ++ b))
        → Flushed w a (sent_batch s w (worked, after))
    sent_Flushed w b a false after e stored h = absurd (cc)
    sent_Flushed w b a true after e stored h = (
      record {
        sent = b;
        stored = λ held was. stored held refl was;
        in_order = ap (λ l. l ++ []) (sym (ap (λ o. rows_in o) e));
        counted = refl;
        same_name = refl;
        same_size = refl;
        total_is = omega arith;
      },
      refl,
    )

    none_left : (n : ℕ) (b : List Row) → n ≡ length b → n ≡ 0 → b ≡ []
    none_left n [] h z = refl
    none_left n (r ∷ b) h z = absurd (omega arith)

    flush_batch_lem :
        (w : Writer Row) (o : Option (List Row)) (a : State)
        → w.batch ≡ o
        → IsCounted w
        → Flushed w a (flush_batch s w o a)
    flush_batch_lem w none a e h = λ worked. (idle_Advances w a h, ap (λ x. rows_in x) e)
    flush_batch_lem w (some b) a e h = elim (Bool-cases (w.rows == 0)) [
      | inl z ↦
          let empty : b ≡ [] =
            none_left w.rows b (h ∙ ap (λ x. length (rows_in x)) e) ((==_iff w.rows 0).0 z) in
          rw (flush_batch, z) (λ worked. (idle_Advances w a h, ap (λ x. rows_in x) e ∙ empty))
      | inr z ↦
          rw (flush_batch, z)
            (sent_Flushed w b a _ _ e
              (λ held worked was. laws.send_ok w.table_name b a held worked was))
    ]

    -- `Flush`
    pub flush_lem : (w : Writer Row) (a : State) → IsCounted w → Flushed w a (flush s w a)
    unfolding flush
    flush_lem w a h = flush_batch_lem w w.batch a refl h
