-- ===== src/Fies/Window.antt =====
-- internal/fies/source.go: `Read` and `Window`, which cut a global offset and limit into the files.
pub mod Rows
pub mod Totals
use fie_importer.Prelude.{
  ℕ, ◌-◌, Bool, false, ℤ, pos, negsuc, List, [], ◌∷◌, min, leb, ◌==◌, if◌then◌else◌,
}
use fie_importer.Fies.File.{File}

pub record Read : Type 0 where
  pub file : File
  pub offset : ℕ
  pub limit : ℕ

-- `limit == 0`
abbrev pub is_spent : ℤ → Bool
is_spent (pos n) = n == 0
is_spent (negsuc n) = false

-- `if limit > 0 { n = min(n, limit) }`; a negative limit is none.
abbrev pub capped : ℤ → ℕ → ℕ
capped (pos l) n = min n l
capped (negsuc l) n = n

-- `if limit > 0 { limit -= n }`
abbrev pub left_over : ℤ → ℕ → ℤ
left_over (pos l) n = pos (l - n)
left_over (negsuc l) n = negsuc l

-- The offset is not negative: `runUpload` refuses one that is.
unfoldable pub window : List File → ℕ → ℤ → List Read
window [] offset limit = []
window (f ∷ files) offset limit =
    let skipped = window files (offset - f.rows) limit in
    let n = capped limit (f.rows - offset) in
    let rest = window files 0 (left_over limit n) in
    if is_spent limit
    then []
    else if leb f.rows offset
    then skipped
    else record { file = f; offset = offset; limit = n } ∷ rest
