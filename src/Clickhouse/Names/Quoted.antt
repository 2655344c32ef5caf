-- ===== src/Clickhouse/Names/Quoted.antt =====
-- Table names between backticks, as the server reads them.
use fie_importer.Prelude.{
  ℕ, ◌≡◌, refl, true, false, Option, none, some, [], ◌∷◌, ◌++◌, append_assoc, arith, ◌==◌,
  if◌then◌else◌,
}
use fie_importer.Prelude.Bytes.{Bytes}
use fie_importer.Clickhouse.Names.{
  continues_name, all_continue, validate_table_name, backtick, quote,
}

-- The rest of an identifier behind its opening backtick. ClickHouse reads a backslash or a doubled
-- backtick there as an escape, so both are refused.
abbrev push : ℕ → Option (Bytes × Bytes) → Option (Bytes × Bytes)
push c none = none
push c (some (name, behind)) = some (c ∷ name, behind)

unfoldable pub read_name : Bytes → Option (Bytes × Bytes)
read_name [] = none
read_name (c ∷ s) =
    let rest = push c (read_name s) in
    if c == backtick then some ([], s) else if c == b'\\' then none else rest

unfoldable pub read_identifier : Bytes → Option (Bytes × Bytes)
unfolding read_name
read_identifier [] = none
read_identifier (c ∷ s) = if c == backtick then read_name s else none

plain_name : (c : ℕ) → continues_name c ≡ true → ((c == backtick) ≡ false) × ((c == b'\\') ≡ false)
unfolding continues_name
plain_name c h = ground arith

read_name-append :
    (s rest : Bytes) → all_continue s ≡ true → read_name (s ++ backtick ∷ rest) ≡ some (s, rest)
unfolding read_name
read_name-append [] rest h = refl
read_name-append (c ∷ s) rest h = ground (arith, plain_name c, read_name-append s rest)

starts-continues :
    (c : ℕ) (s : Bytes) → validate_table_name (c ∷ s) ≡ true → all_continue (c ∷ s) ≡ true
unfolding validate_table_name
starts-continues c s h = ground arith

-- A table name that `ValidateTableName` accepts, put between backticks, is read by the server as that
-- name, with nothing of it left over for the statement behind it.
pub read_identifier-quote :
    (name rest : Bytes)
    → validate_table_name name ≡ true
    → read_identifier (quote name ++ rest) ≡ some (name, rest)
unfolding read_identifier quote
read_identifier-quote [] rest h = unfold validate_table_name in cc
read_identifier-quote (c ∷ s) rest h =
    rw append_assoc (read_name-append (c ∷ s) rest (starts-continues c s h))
