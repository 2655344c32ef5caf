-- ===== src/Streams/Parquet/Written.antt =====
-- What the Parquet file holds after an ingestion.
use fie_importer.Prelude.{
  ℕ, ◌+◌, ◌%◌, ◌^◌, ◌≡◌, refl, sym, ap, ◌∙◌, inl, inr, Bool, true, false, Option, none, some, List,
  [], ◌∷◌, ◌++◌, map, append_assoc, append-nil, arith, if◌then◌else◌, Bool-cases, length, is_empty,
  length-append, ℤ, pos, leb_ℤ,
}
use fie_importer.Streams.Items.{values, errors}
use fie_importer.Streams.Compressed.{CompressedFie}
use fie_importer.Streams.Parquet.{
  ParquetRow, parquet_row, Output, IsOutput, Ingester, write, flushed, counted, or_fail, ingest,
}

module _ (o : Output) (laws : IsOutput o) where
  open o use {State, content, write_rows, flush}

  -- The file has these rows more, and they were counted.
  abbrev Adds : List ParquetRow → Ingester o → Ingester o → Type 0
  Adds rows (a, m) (b, n) =
      (content b ≡ content a ++ rows) × (n % 2 ^ 64 ≡ (m + length rows) % 2 ^ 64)

  flushed_lem :
      (count : ℕ) (k : ℕ) (rows : List ParquetRow) (a b : State)
      → content b ≡ content a ++ rows
      → k ≡ length rows
      → (counted o count k (flush b)).0 ≡ true
      → Adds rows (a, count) (counted o count k (flush b)).1
  flushed_lem count k rows a b grown size good = elim (Bool-cases (flush b).0) [
    | inr bad ↦ absurd (cc (rw (counted, bad) at good))
    | inl fine ↦ rw (counted, fine) (laws.flush_ok b fine ∙ grown, omega (arith, size))
  ]

  write_cases :
      (rows : List ParquetRow) (a : State) (count : ℕ) (n : Option ℕ) (b : State)
      → ((k : ℕ) → n ≡ some k → (content b ≡ content a ++ rows) × (k ≡ length rows))
      → (flushed o count (n, b)).0 ≡ true
      → Adds rows (a, count) (flushed o count (n, b)).1
  write_cases rows a count none b h good = absurd (cc)
  write_cases rows a count (some k) b h good =
      let (grown, size) = h k refl in flushed_lem count k rows a b grown size good

  write_lem :
      (rows : List ParquetRow) (w : Ingester o)
      → (write o rows w).0 ≡ true
      → Adds rows w (write o rows w).1
  unfolding write
  write_lem rows w good =
      write_cases rows w.0 w.1 (write_rows rows w.0).0 (write_rows rows w.0).1
        (λ k e. laws.write_ok rows w.0 k e) good

  both_Adds :
      (xs ys : List ParquetRow) (u v w : Ingester o)
      → Adds xs u v
      → Adds ys v w
      → Adds (xs ++ ys) u w
  both_Adds xs ys (a, k) (b, m) (c, n) (grown, count) (more, counted_too) = (
    more ∙ ap (λ l. l ++ ys) grown ∙ append_assoc (content a) xs ys,
    omega (arith, count, counted_too, length-append xs ys),
  )

  abbrev Ingested :
      List (Option CompressedFie) → List ParquetRow → Ingester o → Bool × Ingester o → Type 0
  Ingested fies rows w (worked, v) =
      worked ≡ true → Adds (rows ++ map parquet_row (values fies)) w v × (errors fies ≡ 0)

  or_fail_lem :
      (fies : List (Option CompressedFie)) (rows : List ParquetRow) (w : Ingester o)
      (r : Bool × Ingester o) (f : Ingester o → Bool × Ingester o)
      → (r.0 ≡ true → Adds rows w r.1)
      → ((v : Ingester o) → Ingested fies [] v (f v))
      → Ingested fies rows w (or_fail o r f)
  or_fail_lem fies rows w (false, v) f first rest = λ worked. absurd (cc)
  or_fail_lem fies rows w (true, v) f first rest = λ worked.
      let (second, good) = rest v worked in
      (both_Adds rows (map parquet_row (values fies)) w v (f v).1 (first refl) second, good)

  last_rows :
      (rows : List ParquetRow) (w : Ingester o)
      → Ingested [] rows w (if is_empty rows then (true, w) else write o rows w)
  last_rows [] w = λ worked. ((sym (append-nil (content w.0)), omega arith), refl)
  last_rows (r ∷ rows) w = λ worked. (rw (append-nil rows) (write_lem (r ∷ rows) w worked), refl)

  module _ (batch_size : ℤ) where
    ingest-Ingested :
        (fies : List (Option CompressedFie)) (rows : List ParquetRow) (w : Ingester o)
        → Ingested fies rows w (ingest o batch_size fies rows w)
    unfolding ingest
    ingest-Ingested [] rows w = last_rows rows w
    ingest-Ingested (none ∷ fies) rows w = λ worked. absurd (cc)
    ingest-Ingested (some fie ∷ fies) rows w =
        elim (Bool-cases (leb_ℤ batch_size (pos (length (rows ++ parquet_row fie ∷ []))))) [
          | inl full ↦
              rw (ingest, full)
                (simp append_assoc at (
                  or_fail_lem fies (rows ++ parquet_row fie ∷ []) w
                    (write o (rows ++ parquet_row fie ∷ []) w) (λ v. ingest o batch_size fies [] v)
                    (write_lem (rows ++ parquet_row fie ∷ []) w) (λ v. ingest-Ingested fies [] v)))
          | inr room ↦
              rw (ingest, room)
                (simp append_assoc at (ingest-Ingested fies (rows ++ parquet_row fie ∷ []) w))
        ]

    -- If the Parquet `Ingest` returns nil, then the stream had no error, and the file holds a row for each of
    -- its values, in their order, behind those of before; `Count` has grown by their number on uint64.
    pub ingest_writes :
        (fies : List (Option CompressedFie)) (w : Ingester o)
        → (ingest o batch_size fies [] w).0 ≡ true
        → (content (ingest o batch_size fies [] w).1.0
            ≡ content w.0 ++ map parquet_row (values fies))
          × ((ingest o batch_size fies [] w).1.1 % 2 ^ 64
              ≡ (w.1 + length (map parquet_row (values fies))) % 2 ^ 64)
          × (errors fies ≡ 0)
    ingest_writes fies w worked =
        let (added, good) = ingest-Ingested fies [] w worked in (added.0, added.1, good)
