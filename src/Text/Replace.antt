-- ===== src/Text/Replace.antt =====
-- `strings.ReplaceAll(s, old, new)` for an `old` of one byte.
use fie_importer.Prelude.{ℕ, [], ◌∷◌, ◌++◌, ◌==◌, if◌then◌else◌}
use fie_importer.Prelude.Bytes.{Bytes}

unfoldable pub replace_all : Bytes → ℕ → Bytes → Bytes
replace_all [] old new = []
replace_all (c ∷ s) old new = (if c == old then new else c ∷ []) ++ replace_all s old new
