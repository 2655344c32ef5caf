-- ===== src/Clickhouse/Names.antt =====
-- internal/clickhouse/clickhouse.go: `identifier`, `ValidateTableName` and `quote`.
pub mod Quoted
use fie_importer.Prelude.{ℕ, Bool, true, false, ◌&&◌, ◌||◌, [], ◌∷◌, ◌++◌, leb, ◌==◌}
use fie_importer.Prelude.Bytes.{Bytes}

abbrev pub in_range : ℕ → ℕ → ℕ → Bool
in_range lo hi c = leb lo c && leb c hi

-- [A-Za-z_]
unfoldable pub starts_name : ℕ → Bool
starts_name c = in_range b'A' b'Z' c || (in_range b'a' b'z' c || c == b'_')

-- [A-Za-z0-9_]
unfoldable pub continues_name : ℕ → Bool
unfolding starts_name
continues_name c = starts_name c || in_range b'0' b'9' c

abbrev pub all_continue : Bytes → Bool
all_continue [] = true
all_continue (c ∷ s) = continues_name c && all_continue s

-- `identifier.MatchString(name)`
unfoldable pub validate_table_name : Bytes → Bool
unfolding starts_name continues_name
validate_table_name [] = false
validate_table_name (c ∷ s) = starts_name c && all_continue s

abbrev pub backtick : ℕ
backtick = b'`'

unfoldable pub quote : Bytes → Bytes
quote table = backtick ∷ (table ++ backtick ∷ [])
