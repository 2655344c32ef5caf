-- ===== src/Streams/Items.antt =====
-- The items of a stream, Go's `iter.Seq2[T, error]`: its values, with `none` for an error.
use fie_importer.Prelude.{
  ℕ, suc, ◌+◌, ◌≡◌, refl, ap, Option, none, some, List, [], ◌∷◌, ◌++◌, arith,
}

-- The values of a stream
abbrev pub values {ℓ} : {A : Type ℓ} → List (Option A) → List A
values [] = []
values (none ∷ items) = values items
values (some v ∷ items) = v ∷ values items

-- The items of a stream that are errors
abbrev pub errors {ℓ} : {A : Type ℓ} → List (Option A) → ℕ
errors [] = 0
errors (none ∷ items) = suc (errors items)
errors (some v ∷ items) = errors items

pub values-append {ℓ} :
    {A : Type ℓ} (xs ys : List (Option A)) → values (xs ++ ys) ≡ values xs ++ values ys
values-append [] ys = refl
values-append (none ∷ xs) ys = values-append xs ys
values-append (some v ∷ xs) ys = ap (λ l. v ∷ l) (values-append xs ys)

pub errors-append {ℓ} :
    {A : Type ℓ} (xs ys : List (Option A)) → errors (xs ++ ys) ≡ errors xs + errors ys
errors-append [] ys = omega arith
errors-append (none ∷ xs) ys = omega (arith, errors-append xs ys)
errors-append (some v ∷ xs) ys = errors-append xs ys
