-- ===== src/Fies/Window/Totals.antt =====
-- The bounds of the reads of `Window`, and the total that `runUpload` adds up from them.
use fie_importer.Prelude.{
  ℕ, ◌+◌, ◌-◌, ◌≤◌, ◌<◌, ◌≡◌, refl, false, inl, inr, ℤ, pos, negsuc, List, [], ◌∷◌, arith, leb, All,
  Bool-cases,
}
use fie_importer.Fies.File.{File}
use fie_importer.Fies.Window.{Read, window, is_spent, capped, left_over}

-- `for _, f := range files { total += f.Rows }`
unfoldable pub sum_rows : List File → ℕ
sum_rows [] = 0
sum_rows (f ∷ fs) = f.rows + sum_rows fs

-- `for _, r := range reads { total += r.Limit }`
unfoldable pub total_limit : List Read → ℕ
total_limit [] = 0
total_limit (r ∷ rs) = r.limit + total_limit rs

-- The total to upload is the number of rows behind the offset, or the limit if that is less.
pub total_limit-window :
    (files : List File) (offset : ℕ) (limit : ℤ)
    → total_limit (window files offset limit) ≡ capped limit (sum_rows files - offset)
unfolding window total_limit sum_rows
total_limit-window [] offset (pos l) = omega arith
total_limit-window [] offset (negsuc l) = omega arith
total_limit-window (f ∷ files) offset limit = ground (
  arith,
  total_limit-window files (offset - f.rows) limit,
  total_limit-window files 0 (left_over limit (capped limit (f.rows - offset))),
)

-- A read that fetches at least one row, and only rows that its file has.
pub record IsWithin (r : Read) : Type 0 where
  pub nonempty : 0 < r.limit
  pub inside : r.offset + r.limit ≤ r.file.rows

capped_pos : (limit : ℤ) (n : ℕ) → is_spent limit ≡ false → 0 < n → 0 < capped limit n
capped_pos (pos l) n h k = ground arith
capped_pos (negsuc l) n h k = k

capped_inside :
    (limit : ℤ) {offset rows : ℕ} → offset < rows → offset + capped limit (rows - offset) ≤ rows
capped_inside (pos l) h = omega arith
capped_inside (negsuc l) h = omega arith

-- Every read of a window fetches at least one row and stays inside its file.
pub window-IsWithin :
    (files : List File) (offset : ℕ) (limit : ℤ) → All IsWithin (window files offset limit)
unfolding window
window-IsWithin [] offset limit = tt
window-IsWithin (f ∷ files) offset limit = elim (Bool-cases (is_spent limit)) [
  | inl spent ↦ rw spent tt
  | inr more ↦ elim (Bool-cases (leb f.rows offset)) [
    | inl over ↦ rw (more, over) (window-IsWithin files (offset - f.rows) limit)
    | inr within ↦
        rw (more, within)
          (
            record {
              nonempty = capped_pos limit _ more (ground arith);
              inside = capped_inside limit (ground arith);
            },
            window-IsWithin files 0 (left_over limit (capped limit (f.rows - offset))),
          )
  ]
]

-- Every file but the first one that is read is read from its start.
abbrev pub FromStart : List Read → Type 0
FromStart = All (λ r. r.offset ≡ 0)

window-FromStart : (files : List File) (limit : ℤ) → FromStart (window files 0 limit)
unfolding window
window-FromStart [] limit = tt
window-FromStart (f ∷ files) limit = elim (Bool-cases (is_spent limit)) [
  | inl spent ↦ rw spent tt
  | inr more ↦ elim (Bool-cases (leb f.rows 0)) [
    | inl over ↦
        rw (more, over)
          (let e : 0 - f.rows ≡ 0 = omega arith in rw e (window-FromStart files limit))
    | inr within ↦
        rw (more, within)
          (refl, window-FromStart files (left_over limit (capped limit (f.rows - 0))))
  ]
]

abbrev pub tail : List Read → List Read
tail [] = []
tail (r ∷ rs) = rs

-- Only the file where the offset lands is read from the middle: all the later reads start at row 0.
pub tail-window-FromStart :
    (files : List File) (offset : ℕ) (limit : ℤ) → FromStart (tail (window files offset limit))
unfolding window
tail-window-FromStart [] offset limit = tt
tail-window-FromStart (f ∷ files) offset limit = elim (Bool-cases (is_spent limit)) [
  | inl spent ↦ rw spent tt
  | inr more ↦ elim (Bool-cases (leb f.rows offset)) [
    | inl over ↦ rw (more, over) (tail-window-FromStart files (offset - f.rows) limit)
    | inr within ↦
        rw (more, within)
          (window-FromStart files (left_over limit (capped limit (f.rows - offset))))
  ]
]
