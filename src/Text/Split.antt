-- ===== src/Text/Split.antt =====
-- `strings.Split` and `strings.Cut` at one byte, and slices at the last one.
use fie_importer.Prelude.{
  ℕ, ◌≡◌, refl, ap, inl, inr, true, false, Option, none, some, List, [], ◌∷◌, ◌++◌, arith, ◌==◌,
  if◌then◌else◌, Bool-cases,
}
use fie_importer.Prelude.Bytes.{Bytes}
use fie_importer.Text.Shell.{contains}

abbrev onto_first : ℕ → List Bytes → List Bytes
onto_first c [] = (c ∷ []) ∷ []
onto_first c (s ∷ parts) = (c ∷ s) ∷ parts

-- `strings.Split(s, sep)`: at least one part
unfoldable pub split : ℕ → Bytes → List Bytes
split sep [] = [] ∷ []
split sep (c ∷ s) = let rest = split sep s in if c == sep then [] ∷ rest else onto_first c rest

abbrev onto_key : ℕ → Option (Bytes × Bytes) → Option (Bytes × Bytes)
onto_key c none = none
onto_key c (some (k, v)) = some (c ∷ k, v)

-- `strings.Cut(s, sep)`, `none` where `found` is false
unfoldable pub cut : ℕ → Bytes → Option (Bytes × Bytes)
cut sep [] = none
cut sep (c ∷ s) = let rest = cut sep s in if c == sep then some ([], s) else onto_key c rest

-- `s[:max(strings.LastIndexByte(s, sep), 0)]`
unfoldable pub before_last : ℕ → Bytes → Bytes
before_last sep [] = []
before_last sep (c ∷ s) = let rest = before_last sep s in if contains s sep then c ∷ rest else []

-- A text with the byte is cut at the last one.
pub before_last-append :
    (sep : ℕ) (s : Bytes)
    → contains s sep ≡ true
    → (rest : Bytes) × (s ≡ before_last sep s ++ sep ∷ rest) × (contains rest sep ≡ false)
unfolding before_last
before_last-append sep [] h = cc
before_last-append sep (c ∷ s) h = elim (Bool-cases (contains s sep)) [
  | inl later ↦
      let (rest, e, last) = before_last-append sep s later in
      (rest, rw later (ap (λ t. c ∷ t) e), last)
  | inr final ↦ let here : c ≡ sep = ground arith in (s, rw (final, here) refl, final)
]
