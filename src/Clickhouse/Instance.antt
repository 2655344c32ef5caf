-- ===== src/Clickhouse/Instance.antt =====
-- A server that keeps its tables in memory, for the runs in the tests: it meets the laws.
use fie_importer.Prelude.{
  ℕ, ◌≡◌, refl, sym, ap, ◌∙◌, ◌≢◌, Bool, true, false, Option, none, some, List, [], ◌++◌,
  if◌then◌else◌, length,
}
use fie_importer.Prelude.Bytes.{Bytes}
use fie_importer.Net.{bytes_eq, bytes_eq_refl, bytes_ne}
use fie_importer.Clickhouse.Server.{Server, IsServer}

abbrev pub Tables : Type 0 → Type 0
Tables Row = Bytes → Option (List Row)

abbrev is_some {ℓ} : {A : Type ℓ} → Option A → Bool
is_some none = false
is_some (some x) = true

module _ {Row : Type 0} where
  -- One table replaced.
  abbrev pub set : Bytes → Option (List Row) → Tables Row → Tables Row
  set name rows a other = if bytes_eq other name then rows else a other

  pub set_same :
      (name : Bytes) (rows : Option (List Row)) (a : Tables Row) → set name rows a name ≡ rows
  set_same name rows a = rw (bytes_eq_refl name) refl

  pub set_other :
      (name : Bytes) (rows : Option (List Row)) (a : Tables Row) (other : Bytes)
      → other ≢ name
      → set name rows a other ≡ a other
  set_other name rows a other ne = rw (bytes_ne other name ne) refl

  abbrev created : Bytes → Tables Row → Option (List Row) → Bool × Tables Row
  created name a none = (true, set name (some []) a)
  created name a (some rows) = (false, a)

  abbrev dropped_table : Bytes → Tables Row → Option (List Row) → Bool × Tables Row
  dropped_table name a none = (false, a)
  dropped_table name a (some rows) = (true, set name none a)

  abbrev appended : Bytes → List Row → Tables Row → Option (List Row) → Bool × Tables Row
  appended name rows a none = (false, a)
  appended name rows a (some before) = (true, set name (some (before ++ rows)) a)

  abbrev pub memory : Server Row
  memory = record {
    State = Tables Row;
    table = λ a n. a n;
    connect = λ a. (true, a);
    exists = λ n a. (some (is_some (a n)), a);
    create = λ n a. created n a (a n);
    drop = λ n a. dropped_table n a (a n);
    send = λ n rows a. appended n rows a (a n);
    count = λ n a. (elim (a n) [ none ↦ none | some rows ↦ some (length rows) ], a);
  }

  created_ok :
      (n : Bytes) (a : Tables Row) (t : Option (List Row))
      → (created n a t).0 ≡ true
      → (t ≡ none) × ((created n a t).1 n ≡ some [])
  created_ok n a none h = (refl, set_same n (some []) a)
  created_ok n a (some rows) h = cc

  created_failed :
      (n : Bytes) (a : Tables Row) (t : Option (List Row))
      → (created n a t).0 ≡ false
      → (other : Bytes) → (created n a t).1 other ≡ a other
  created_failed n a none h = cc
  created_failed n a (some rows) h = λ other. refl

  created_others :
      (n : Bytes) (a : Tables Row) (t : Option (List Row)) (other : Bytes)
      → other ≢ n
      → (created n a t).1 other ≡ a other
  created_others n a none other ne = set_other n (some []) a other ne
  created_others n a (some rows) other ne = refl

  dropped_ok :
      (n : Bytes) (a : Tables Row) (t : Option (List Row))
      → (dropped_table n a t).0 ≡ true
      → (dropped_table n a t).1 n ≡ none
  dropped_ok n a none h = cc
  dropped_ok n a (some rows) h = set_same n none a

  dropped_others :
      (n : Bytes) (a : Tables Row) (t : Option (List Row)) (other : Bytes)
      → other ≢ n
      → (dropped_table n a t).1 other ≡ a other
  dropped_others n a none other ne = refl
  dropped_others n a (some rows) other ne = set_other n none a other ne

  appended_ok :
      (n : Bytes) (rows : List Row) (a : Tables Row) (t : Option (List Row)) (before : List Row)
      → (appended n rows a t).0 ≡ true
      → t ≡ some before
      → (appended n rows a t).1 n ≡ some (before ++ rows)
  appended_ok n rows a none before h e = cc
  appended_ok n rows a (some x) before h e =
      let same : x ≡ before = cc in
      set_same n (some (x ++ rows)) a ∙ ap (λ l. some (l ++ rows)) same

  appended_others :
      (n : Bytes) (rows : List Row) (a : Tables Row) (t : Option (List Row)) (other : Bytes)
      → other ≢ n
      → (appended n rows a t).1 other ≡ a other
  appended_others n rows a none other ne = refl
  appended_others n rows a (some x) other ne = set_other n (some (x ++ rows)) a other ne

  appended_keeps :
      (n : Bytes) (rows : List Row) (a : Tables Row) (t : Option (List Row))
      → a n ≢ none
      → (appended n rows a t).1 n ≢ none
  appended_keeps n rows a none h gone = h gone
  appended_keeps n rows a (some x) h gone = cc (sym (set_same n (some (x ++ rows)) a) ∙ gone)

  exists_some : (t : Option (List Row)) → some (is_some t) ≡ some true → t ≢ none
  exists_some none h e = cc
  exists_some (some x) h e = cc

  counted :
      (t : Option (List Row)) (k : ℕ) (rows : List Row)
      → elim t as (λ t. Option ℕ) [ none ↦ none | some rows ↦ some (length rows) ] ≡ some k
      → t ≡ some rows
      → k ≡ length rows
  counted none k rows h e = cc
  counted (some x) k rows h e =
      let same : x ≡ rows = cc in let size : length x ≡ k = cc in sym size ∙ ap length same

  pub memory-IsServer : IsServer memory
  memory-IsServer = record {
    connect_same = λ a other. refl;
    exists_same = λ n a other. refl;
    exists_yes = λ n a. exists_some (a n);
    create_ok = λ n a. created_ok n a (a n);
    create_failed = λ n a. created_failed n a (a n);
    create_others = λ n a. created_others n a (a n);
    drop_ok = λ n a. dropped_ok n a (a n);
    drop_others = λ n a. dropped_others n a (a n);
    send_ok = λ n rows a before. appended_ok n rows a (a n) before;
    send_others = λ n rows a. appended_others n rows a (a n);
    send_keeps = λ n rows a. appended_keeps n rows a (a n);
    count_same = λ n a other. refl;
    count_right = λ n a k rows. counted (a n) k rows;
  }
