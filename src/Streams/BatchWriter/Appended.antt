-- ===== src/Streams/BatchWriter/Appended.antt =====
-- What a writer does with the rows that it is given.
use fie_importer.Prelude.{
  suc, ◌≡◌, refl, sym, ap, ◌∙◌, inl, inr, Bool, true, Option, none, some, List, [], ◌∷◌, ◌++◌,
  append_assoc, append-nil, arith, Bool-cases, length, length-append, ℤ, pos, ◌≤ℤ◌, ◌<ℤ◌, leb_ℤ,
}
use fie_importer.Clickhouse.Server.{Server, IsServer}
use fie_importer.Streams.BatchWriter.{Writer, flush, count_row, append_to, append_batch, append}
use fie_importer.Streams.BatchWriter.Sent.{rows_in, pending, IsCounted, Advances, flush_lem}

module _ {Row : Type 0} (s : Server Row) (laws : IsServer s) where
  open s use {State, table}

  and_then_Advances :
      (u v w : Writer Row) (xs ys : List Row) (a b c : State)
      → Advances s u v xs a b
      → Advances s v w ys b c
      → Advances s u w (xs ++ ys) a c
  and_then_Advances u v w xs ys a b c first second = record {
    sent = first.sent ++ second.sent;
    stored = λ held was.
        let mid = ap (λ n. table b n) first.same_name ∙ first.stored held was in
        ap (λ n. table c n) (sym first.same_name)
        ∙ second.stored (held ++ first.sent) mid
        ∙ ap (λ l. some l) (append_assoc held first.sent second.sent);
    in_order =
        append_assoc first.sent second.sent (pending w)
        ∙ ap (λ l. first.sent ++ l) second.in_order
        ∙ sym (append_assoc first.sent (pending v) ys)
        ∙ ap (λ l. l ++ ys) first.in_order
        ∙ append_assoc (pending u) xs ys;
    counted = second.counted;
    same_name = second.same_name ∙ first.same_name;
    same_size = second.same_size ∙ first.same_size;
    total_is = omega (arith, first.total_is, second.total_is, length-append xs ys);
  }

  -- There is room for another row.
  abbrev pub HasRoom : Writer Row → Type 0
  HasRoom w = pos w.rows <ℤ w.batch_size

  module _ (prepare : State → Bool) (accepts : Row → Bool) where
    -- What an `Append` that succeeds leaves
    abbrev Appended : Writer Row → Row → State → Bool × Writer Row × State → Type 0
    Appended w r a (worked, v, b) =
        worked ≡ true → Advances s w v (r ∷ []) a b × (pos 1 ≤ℤ w.batch_size → HasRoom v)

    -- The writer with the row in its batch
    abbrev grown : Writer Row → List Row → Row → Writer Row
    grown w b r = record w { batch = some (b ++ r ∷ []); rows = suc w.rows; total = suc w.total }

    counted_Advances :
        (w : Writer Row) (b : List Row) (r : Row) (a : State)
        → b ≡ pending w
        → IsCounted w
        → Advances s w (grown w b r) (r ∷ []) a a
    counted_Advances w b r a e h = record {
      sent = [];
      stored = λ held was. was ∙ ap (λ l. some l) (sym (append-nil held));
      in_order = ap (λ l. l ++ r ∷ []) e;
      counted = omega (arith, h, ap length e, length-append b (r ∷ []));
      same_name = refl;
      same_size = refl;
      total_is = omega arith;
    }

    empty-HasRoom :
        (w : Writer Row) (size : ℤ)
        → w.batch_size ≡ size
        → IsCounted w
        → pending w ≡ []
        → pos 1 ≤ℤ size
        → HasRoom w
    empty-HasRoom w size same h empty positive =
        let nothing : w.rows ≡ 0 = h ∙ ap length empty in
        rw (same, nothing) (omega (arith, positive))

    count_row_lem :
        (w : Writer Row) (b : List Row) (r : Row) (a : State)
        → b ≡ pending w
        → IsCounted w
        → Appended w r a (count_row s prepare accepts w (b ++ r ∷ []) a)
    unfolding count_row
    count_row_lem w b r a e h = elim (Bool-cases (leb_ℤ w.batch_size (pos (suc w.rows)))) [
      | inl full ↦
          let one = counted_Advances w b r a e h in
          rw full (λ worked.
            let (sent, empty) = flush_lem s laws (grown w b r) a one.counted worked in
            (
              and_then_Advances w (grown w b r) (flush s (grown w b r) a).1 (r ∷ []) [] a a
                  (flush s (grown w b r) a).2 one sent,
              empty-HasRoom (flush s (grown w b r) a).1 w.batch_size sent.same_size sent.counted
                  empty,
            ))
      | inr part ↦ rw part (λ worked. (counted_Advances w b r a e h, λ positive. ground arith))
    ]

    append_to_lem :
        (w : Writer Row) (b : List Row) (r : Row) (a : State)
        → b ≡ pending w
        → IsCounted w
        → Appended w r a (append_to s prepare accepts w b r a)
    unfolding append_to
    append_to_lem w b r a e h = elim (Bool-cases (accepts r)) [
      | inl taken ↦ rw taken (count_row_lem w b r a e h)
      | inr refused ↦ rw refused (λ worked. absurd (cc))
    ]

    append_batch_lem :
        (w : Writer Row) (o : Option (List Row)) (r : Row) (a : State)
        → w.batch ≡ o
        → IsCounted w
        → Appended w r a (append_batch s prepare accepts w o r a)
    append_batch_lem w none r a e h = elim (Bool-cases (prepare a)) [
      | inl good ↦ rw (append_batch, good) (append_to_lem w [] r a (sym (ap rows_in e)) h)
      | inr bad ↦ rw (append_batch, bad) (λ worked. absurd (cc))
    ]
    append_batch_lem w (some b) r a e h = append_to_lem w b r a (sym (ap rows_in e)) h

    -- An `Append` that succeeds takes the row behind those that are pending, counts it, and leaves room for
    -- another one; what it sends is a part in front of these rows, in their order.
    pub append_lem :
        (w : Writer Row) (r : Row) (a : State)
        → IsCounted w
        → (append s prepare accepts w r a).0 ≡ true
        → Advances s w
            (append s prepare accepts w r a).1
            (r ∷ [])
            a
            (append s prepare accepts w r a).2
          × (pos 1 ≤ℤ w.batch_size → HasRoom (append s prepare accepts w r a).1)
    unfolding append
    append_lem w r a h = append_batch_lem w w.batch r a refl h
