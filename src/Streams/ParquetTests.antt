-- ===== src/Streams/ParquetTests.antt =====
-- An ingestion into a Parquet file that is a list of rows.
use fie_importer.Prelude.{
  ℕ, ◌+◌, ◌%◌, ◌^◌, ◌≡◌, refl, sym, true, Option, some, List, [], ◌∷◌, ◌++◌, map, length, pos,
}
use fie_importer.Streams.Items.{values, errors}
use fie_importer.Streams.Compressed.{CompressedFie}
use fie_importer.Streams.Parquet.{ParquetRow, parquet_row, Output, IsOutput, write, ingest}
use fie_importer.Streams.Parquet.Written.{ingest_writes}

abbrev list_output : Output
list_output = record {
  State = List ParquetRow;
  content = λ a. a;
  write_rows = λ rows a. (some (length rows), a ++ rows);
  flush = λ a. (true, a);
}

list_output-IsOutput : IsOutput list_output
list_output-IsOutput = record {
  write_ok = λ rows a n h. (refl, let same : length rows ≡ n = cc in sym same);
  flush_ok = λ a h. refl;
}

abbrev captured : ℕ → Option CompressedFie
captured n = some (record {
  sequence_number = n;
  columns = record {
    probing_directive_id = 7;
    near_reply_address = 192 ∷ 0 ∷ 2 ∷ 1 ∷ [];
    far_reply_address = [];
    capture_second = 5;
    time_deltas = 0;
  };
  capture_base_time = pos 0;
})

abbrev three : List (Option CompressedFie)
three = captured 0 ∷ captured 1 ∷ captured 2 ∷ []

ingest_writes_example :
    (list_output.content (ingest list_output (pos 2) three [] ([], 0)).1.0
      ≡ [] ++ map parquet_row (values three))
    × ((ingest list_output (pos 2) three [] ([], 0)).1.1 % 2 ^ 64
        ≡ (0 + length (map parquet_row (values three))) % 2 ^ 64)
    × (errors three ≡ 0)
ingest_writes_example =
    ingest_writes list_output list_output-IsOutput (pos 2) three ([], 0)
      (unfold ingest in unfold write in refl)
