-- ===== src/Fies/Window/Rows.antt =====
-- The rows that the reads of `Window` fetch, against one cut of all the rows.
use fie_importer.Prelude.{
  ℕ, zero, suc, ◌-◌, ◌≡◌, refl, ap, true, inl, inr, ℤ, pos, negsuc, List, [], ◌∷◌, ◌++◌, min, arith,
  leb, length, take, drop, All, Bool-cases, append-nil,
}
use fie_importer.Prelude.{drop-append_ge, drop-append_le, take-append_ge, take-append_le, take_all}
use fie_importer.Prelude.{length-drop, leb→le}
use native.Mathlib.Decide.{dec_le}
use fie_importer.Fies.File.{File}
use fie_importer.Fies.Window.{Read, window, is_spent, capped, left_over}

-- A limit as a cut of a list: none below zero.
abbrev pub take_limit {ℓ} : {A : Type ℓ} → ℤ → List A → List A
take_limit (pos n) xs = take n xs
take_limit (negsuc n) xs = xs

module _ {ℓ} {A : Type ℓ} (rows_of : File → List A) where
  abbrev pub all_rows : List File → List A
  all_rows [] = []
  all_rows (f ∷ fs) = rows_of f ++ all_rows fs

  -- `LIMIT r.limit OFFSET r.offset` over the filtered rows of the file, as `Rows` runs it.
  abbrev pub read_rows : List Read → List A
  read_rows [] = []
  read_rows (r ∷ rs) = take r.limit (drop r.offset (rows_of r.file)) ++ read_rows rs

  abbrev pub IsPlanned : File → Type 0
  IsPlanned f = length (rows_of f) ≡ f.rows

module _ {ℓ} {A : Type ℓ} where
  take-append :
      (n : ℕ) (xs ys : List A)
      → take n (xs ++ ys) ≡ take (min (length xs) n) xs ++ take (n - min (length xs) n) ys
  take-append n xs ys = elim (dec_le n (length xs)) [
    | yes h ↦
        let e : min (length xs) n ≡ n = omega arith in
        let z : n - n ≡ 0 = omega arith in rw (e, z, append-nil) (take-append_le n xs ys h)
    | no h ↦
        let e : min (length xs) n ≡ length xs = omega arith in
        rw (e, take_all (length xs) xs (omega arith)) (take-append_ge n xs ys (omega arith))
  ]

  take_limit-append :
      (limit : ℤ) (xs ys : List A)
      → take_limit limit (xs ++ ys)
        ≡ take (capped limit (length xs)) xs
          ++ take_limit (left_over limit (capped limit (length xs))) ys
  take_limit-append (pos l) xs ys = take-append l xs ys
  take_limit-append (negsuc l) xs ys = rw (take_all (length xs) xs (omega arith))

  take_limit-nil : (limit : ℤ) → take_limit {A = A} limit [] ≡ []
  take_limit-nil (pos zero) = refl
  take_limit-nil (pos (suc l)) = refl
  take_limit-nil (negsuc l) = refl

  drop-nil : (n : ℕ) → drop {A = A} n [] ≡ []
  drop-nil zero = refl
  drop-nil (suc n) = refl

  take_limit_spent : (limit : ℤ) (xs : List A) → is_spent limit ≡ true → take_limit limit xs ≡ []
  take_limit_spent (pos zero) xs h = refl
  take_limit_spent (pos (suc l)) xs h = absurd (ground arith)
  take_limit_spent (negsuc l) xs h = cc

module _ {ℓ} {A : Type ℓ} (rows_of : File → List A) where
  -- The reads of a window fetch, file by file, the filtered rows of all files with `offset` of them
  -- dropped and at most `limit` kept, if each file was planned with its number of filtered rows.
  pub read_rows-window :
      (files : List File) (offset : ℕ) (limit : ℤ)
      → All (IsPlanned rows_of) files
      → read_rows rows_of (window files offset limit)
        ≡ take_limit limit (drop offset (all_rows rows_of files))
  unfolding window
  read_rows-window [] offset limit h = rw (drop-nil, take_limit-nil)
  read_rows-window (f ∷ files) offset limit (hf, h) = elim (Bool-cases (is_spent limit)) [
    | inl spent ↦ rw (spent, take_limit_spent limit _ spent)
    | inr more ↦ elim (Bool-cases (leb f.rows offset)) [
      | inl over ↦
          rw (more, over)
            (rw (drop-append_ge offset (rows_of f) _ (rw hf (leb→le f.rows offset over)), hf)
              (read_rows-window files (offset - f.rows) limit h))
      | inr inside ↦
          rw (more, inside)
            (rw
              (
                drop-append_le offset (rows_of f) _ (rw hf (ground arith)),
                take_limit-append,
                length-drop,
                hf,
              )
              (ap (λ l. take (capped limit (f.rows - offset)) (drop offset (rows_of f)) ++ l)
                (read_rows-window files 0 (left_over limit (capped limit (f.rows - offset))) h)))
    ]
  ]
