-- ===== src/Text/Sql.antt =====
-- internal/fies/merge.go: `quote`, which writes a text as a SQL string literal for DuckDB.
use fie_importer.Prelude.{
  ℕ, ◌≡◌, refl, sym, ap, ◌≢◌, inl, inr, false, Option, none, some, [], ◌∷◌, ◌++◌, append_assoc,
  arith, ◌==◌, if◌then◌else◌, Bool-cases, ==_iff,
}
use fie_importer.Prelude.Bytes.{Bytes}
use fie_importer.Text.Replace.{replace_all}

abbrev apostrophe : ℕ
apostrophe = b'\''

unfoldable pub quote : Bytes → Bytes
quote s = apostrophe ∷ (replace_all s apostrophe (apostrophe ∷ apostrophe ∷ []) ++ apostrophe ∷ [])

-- The rest of a SQL string literal, behind its opening quote: two quotes stand for one, and one
-- alone ends the literal. The result is the text of the literal and what follows it.
abbrev push : ℕ → Option (Bytes × Bytes) → Option (Bytes × Bytes)
push c none = none
push c (some (s, rest)) = some (c ∷ s, rest)

unfoldable pub read_literal : Bytes → Option (Bytes × Bytes)
read_literal [] = none
read_literal (c ∷ []) = if c == apostrophe then some ([], []) else none
read_literal (c ∷ d ∷ s) =
    let doubled = push apostrophe (read_literal s) in
    let plain = push c (read_literal (d ∷ s)) in
    if c == apostrophe then (if d == apostrophe then doubled else some ([], d ∷ s)) else plain

unfoldable pub read_quoted : Bytes → Option (Bytes × Bytes)
unfolding read_literal
read_quoted [] = none
read_quoted (c ∷ s) = if c == apostrophe then read_literal s else none

-- A text that does not go on with a quote.
abbrev pub EndsLiteral : Bytes → Type 0
EndsLiteral [] = Unit {0}
EndsLiteral (c ∷ s) = c ≢ apostrophe

read_literal-end :
    (rest : Bytes) → EndsLiteral rest → read_literal (apostrophe ∷ rest) ≡ some ([], rest)
unfolding read_literal
read_literal-end [] h = refl
read_literal-end (c ∷ s) h = ground arith

read_literal-plain :
    (c : ℕ) (s : Bytes) → (c == apostrophe) ≡ false → read_literal (c ∷ s) ≡ push c (read_literal s)
unfolding read_literal
read_literal-plain c [] h = rw h
read_literal-plain c (d ∷ s) h = rw h

read_literal-doubled :
    (s : Bytes) → read_literal (apostrophe ∷ apostrophe ∷ s) ≡ push apostrophe (read_literal s)
unfolding read_literal
read_literal-doubled s = refl

doubled_text : Bytes → Bytes
doubled_text s = replace_all s apostrophe (apostrophe ∷ apostrophe ∷ [])

read_literal-replace_all :
    (s rest : Bytes)
    → EndsLiteral rest
    → read_literal (doubled_text s ++ apostrophe ∷ rest) ≡ some (s, rest)
unfolding replace_all doubled_text
read_literal-replace_all [] rest h = read_literal-end rest h
read_literal-replace_all (c ∷ s) rest h = elim (Bool-cases (c == apostrophe)) [
  | inl e ↦
      let same : apostrophe ≡ c = sym ((==_iff c apostrophe).0 e) in
      rw (e, read_literal-doubled, read_literal-replace_all s rest h)
        (ap (λ d. some (d ∷ s, rest)) same)
  | inr e ↦ rw (e, read_literal-plain c _ e, read_literal-replace_all s rest h)
]

-- DuckDB reads a quoted text back as that text, whatever bytes it holds, in front of any SQL that
-- does not go on with another quote.
pub read_quoted-quote :
    (s rest : Bytes) → EndsLiteral rest → read_quoted (quote s ++ rest) ≡ some (s, rest)
unfolding quote doubled_text read_quoted
read_quoted-quote s rest h = rw append_assoc (read_literal-replace_all s rest h)
