-- ===== src/Clickhouse/Insert/Whole.antt =====
-- `insert` sends all rows of a batch or none.
use fie_importer.Prelude.{
  ◌≡◌, refl, sym, ap, ◌∙◌, ◌≢◌, inl, inr, true, Option, none, some, List, [], ◌∷◌, ◌++◌, map,
  append_assoc, append-nil, Bool-cases, Option-cases,
}
use fie_importer.Prelude.Bytes.{Bytes}
use fie_importer.Clickhouse.Columns.{Value}
use fie_importer.Clickhouse.Insert.{
  Connection, InsertError, cannot_send, insert_into, send_batch, append_rows, insert,
}

module _ (c : Connection) where
  abbrev pub SameTables : c.State → c.State → Type 0
  SameTables a b = (name : Bytes) → c.table b name ≡ c.table a name

  -- What the driver documents: a batch collects rows on the side of the client, and `Send` inserts all of them.
  -- `Send` of a batch that fails leaves what the server has taken of it in its own table.
  pub record IsConnection : Type 0 where
    pub prepare_same : (s : Bytes) (a : c.State) → SameTables a (c.prepare s a).1
    pub prepared :
        (s : Bytes) (a : c.State) (batch : c.Batch)
        → (c.prepare s a).0 ≡ some batch
        → (c.content batch ≡ []) × (c.statement batch ≡ s)
    pub append_same :
        (v : List Value) (batch : c.Batch) (a : c.State) → SameTables a (c.append v batch a).1
    pub appended :
        (v : List Value) (batch : c.Batch) (a : c.State)
        → ((c.append v batch a).0).0 ≡ true
        → (c.content ((c.append v batch a).0).1 ≡ c.content batch ++ v ∷ [])
          × (c.statement ((c.append v batch a).0).1 ≡ c.statement batch)
    pub abort_same : (batch : c.Batch) (a : c.State) → SameTables a (c.abort batch a)
    pub sent :
        (batch : c.Batch) (a : c.State) (name : Bytes) (before : List (List Value))
        → c.statement batch ≡ insert_into name
        → (c.send batch a).0 ≡ true
        → c.table a name ≡ some before
        → c.table (c.send batch a).1 name ≡ some (before ++ c.content batch)
    pub send_others :
        (batch : c.Batch) (a : c.State) (name other : Bytes)
        → c.statement batch ≡ insert_into name
        → other ≢ name
        → c.table (c.send batch a).1 other ≡ c.table a other

  module _ {Row : Type 0} (values : Row → List Value) (name : Bytes) where
    -- What an insertion of rows into a table leaves, by its result
    pub data Insertion (rows : List Row) (a b : c.State) : Option InsertError → Type 0 where
      inserted :
          ((before : List (List Value))
            → c.table a name ≡ some before
            → c.table b name ≡ some (before ++ map values rows))
          → ((other : Bytes) → other ≢ name → c.table b other ≡ c.table a other)
          → Insertion rows a b none
      nothing_sent :
          {e : InsertError} → e ≢ cannot_send → SameTables a b → Insertion rows a b (some e)
      send_failed :
          ((other : Bytes) → other ≢ name → c.table b other ≡ c.table a other)
          → Insertion rows a b (some cannot_send)

    module _ (laws : IsConnection) where
      -- The state behind the rows that the batch holds already
      pub record Holds (first : List Row) (a b : c.State) (batch : c.Batch) : Type 0 where
        pub holds : c.content batch ≡ map values first
        pub into : c.statement batch ≡ insert_into name
        pub same : SameTables a b

      map-append : (xs ys : List Row) → map values (xs ++ ys) ≡ map values xs ++ map values ys
      map-append [] ys = refl
      map-append (x ∷ xs) ys = ap (λ l. values x ∷ l) (map-append xs ys)

      send_batch-Insertion :
          (rows : List Row) (a b : c.State) (batch : c.Batch)
          → Holds rows a b batch
          → Insertion rows a (send_batch c values batch b).1 (send_batch c values batch b).0
      send_batch-Insertion rows a b batch h = elim (Bool-cases (c.send batch b).0) [
        | inl ok ↦ rw ok (
            inserted
              (λ before e.
                laws.sent batch b name before h.into ok (h.same name ∙ e)
                ∙ ap (λ l. some (before ++ l)) h.holds)
              (λ other ne. laws.send_others batch b name other h.into ne ∙ h.same other))
        | inr failed ↦
            rw failed (
              send_failed
                (λ other ne. laws.send_others batch b name other h.into ne ∙ h.same other))
      ]

      append_rows-Insertion :
          (first rows : List Row) (a b : c.State) (batch : c.Batch)
          → Holds first a b batch
          → Insertion
              (first ++ rows)
              a
              (append_rows c values rows batch b).1
              (append_rows c values rows batch b).0
      unfolding append_rows
      append_rows-Insertion first [] a b batch h =
          rw append-nil (send_batch-Insertion first a b batch h)
      append_rows-Insertion first (r ∷ rows) a b batch h =
          elim (Bool-cases ((c.append (values r) batch b).0).0) [
            | inl ok ↦
                let (held, kept) = laws.appended (values r) batch b ok in
                let whole : (first ++ r ∷ []) ++ rows ≡ first ++ r ∷ rows =
                  append_assoc first (r ∷ []) rows in
                rw (append_rows, ok)
                  (rw whole at (
                    append_rows-Insertion (first ++ r ∷ []) rows a (c.append (values r) batch b).1
                      ((c.append (values r) batch b).0).1
                      (record {
                        holds =
                            held
                            ∙ ap (λ l. l ++ values r ∷ []) h.holds
                            ∙ sym (map-append first (r ∷ []));
                        into = kept ∙ h.into;
                        same = λ other. laws.append_same (values r) batch b other ∙ h.same other;
                      })))
            | inr failed ↦
                rw (append_rows, failed)
                  (nothing_sent (λ e. cc)
                    (λ other.
                      laws.abort_same _ _ other
                      ∙ laws.append_same (values r) batch b other
                      ∙ h.same other))
          ]

      -- `insert` without an error has appended the values of all rows, in order, to the table; with an error
      -- before the batch is sent it leaves every table as it was; and a failed sending changes no other table.
      pub insert-Insertion :
          (rows : List Row) (a : c.State)
          → Insertion rows a (insert c values name rows a).1 (insert c values name rows a).0
      unfolding insert
      insert-Insertion rows a = elim (Option-cases (c.prepare (insert_into name) a).0) [
        | inl failed ↦
            rw (insert, failed) (nothing_sent (λ e. cc) (laws.prepare_same (insert_into name) a))
        | inr (batch, e) ↦
            let (empty, into) = laws.prepared (insert_into name) a batch e in
            rw (insert, e)
              (append_rows-Insertion [] rows a (c.prepare (insert_into name) a).1 batch (record {
                holds = empty;
                into = into;
                same = laws.prepare_same (insert_into name) a;
              }))
      ]
