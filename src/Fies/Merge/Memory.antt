-- ===== src/Fies/Merge/Memory.antt =====
-- A disk in memory, for the tests of the merge.
use fie_importer.Prelude.{ℕ, ◌≡◌, refl, ◌∙◌, true, Option, none, some, List, length}
use fie_importer.Clickhouse.Instance.{Tables, set, set_same, set_other}
use fie_importer.Fies.Merge.{Stat, present, missing, Disk}
use fie_importer.Fies.Merge.Safe.{IsDisk}

module _ {Row : Type 0} (copied : List Row) where
  -- The content of a file is a list of rows.
  abbrev pub stat_of : Option (List Row) → Stat
  stat_of none = missing
  stat_of (some rows) = present

  abbrev pub size_of : Option (List Row) → Option ℕ
  size_of none = none
  size_of (some rows) = some (length rows)

  -- DuckDB writes the rows `copied`, whatever it reads.
  abbrev pub disk : Disk (List Row)
  disk = record {
    State = Tables Row;
    content = λ a p. a p;
    stat = λ p a. stat_of (a p);
    remove = λ p a. set p none a;
    rename = λ from to a. (true, set to (a from) (set from none a));
    settings = λ a. true;
    copy = λ p a. (true, set p (some copied) a);
    num_rows = λ p a. size_of (a p);
  }

  size_right :
      (c : Option (List Row)) (n : ℕ)
      → size_of c ≡ some n
      → (rows : List Row) × (c ≡ some rows) × (length rows ≡ n)
  size_right none n h = cc
  size_right (some rows) n h = (rows, refl, cc)

  pub disk-IsDisk : IsDisk disk length
  disk-IsDisk = record {
    remove_others = λ p a other ne. set_other p none a other ne;
    copy_others = λ p a other ne. set_other p _ a other ne;
    num_rows_right = λ p a n. size_right (a p) n;
    rename_others = λ from to a other ne_from ne_to.
        set_other to (a from) (set from none a) other ne_to ∙ set_other from none a other ne_from;
    rename_ok = λ from to a h. set_same to (a from) (set from none a);
    rename_failed = λ from to a h. cc;
  }
