-- ===== src/Text/Group.antt =====
-- cmd/fie-importer/shared.go: `group`, which puts thousands separators into a number.
pub mod Thousands
use fie_importer.Prelude.{suc, ◌%◌, [], ◌∷◌, ◌++◌, ◌==◌, if◌then◌else◌, length, ℤ, pos_part}
use fie_importer.Prelude.Bytes.{Bytes}
use fie_importer.Text.Decimal.{format_uint}

-- The loop behind its first round: a comma goes before a digit with a multiple of three digits from it
-- to the end.
unfoldable pub separate : Bytes → Bytes
separate [] = []
separate (c ∷ s) = (if suc (length s) % 3 == 0 then b',' ∷ c ∷ [] else c ∷ []) ++ separate s

-- At `i == 0` no comma is written.
unfoldable pub group_digits : Bytes → Bytes
unfolding separate
group_digits [] = []
group_digits (c ∷ s) = c ∷ separate s

-- `max(n, 0)`
unfoldable pub group : ℤ → Bytes
group n = group_digits (format_uint (pos_part n))
