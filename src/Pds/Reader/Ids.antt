-- ===== src/Pds/Reader/Ids.antt =====
-- What the loops over `Next` get: the rows of the lines that are not blank, numbered in file order.
use fie_importer.Prelude.{
  ℕ, zero, suc, ◌+◌, ◌≤◌, ◌<◌, ◌≡◌, refl, sym, ap, ◌∙◌, ◌≢◌, ◌↔◌, Bool, true, false, not, Option,
  List, [], ◌∷◌, map, arith, ◌==◌, if◌then◌else◌, length, is_empty, keep_if,
}
use fie_importer.Prelude.Bytes.{Bytes}
use fie_importer.Net.{Addr}
use fie_importer.Pds.Parse.{Line, Row, ok, err, parse}
use fie_importer.Pds.Parse.Accepts.{parse_lem}
use fie_importer.Pds.Reader.{
  Reader, Next, end_of_file, bad_line, ids_exceeded, read_failed, max_uint32, trim_space, take_line,
  next, read_all, push,
}

-- The lines that are not blank, trimmed.
abbrev pub texts_of : List Bytes → List Bytes
texts_of lines = keep_if (λ t. not (is_empty t)) (map trim_space lines)

module _ (unmarshal : Bytes → Option Line) (parse_addr : Bytes → Option Addr) where
  -- The rows of the lines, and what ends them, as one recursion over the lines.
  rows_from : List Bytes → Bool → ℕ → ℕ → List Row × Next
  rows_from [] failure id n = ([], if failure then read_failed n else end_of_file)
  rows_from (l ∷ ls) failure id n =
      let skipped = rows_from ls failure id (n + 1) in
      let rest = rows_from ls failure (id + 1) (n + 1) in
      elim (is_empty (trim_space l)) [
        | true ↦ skipped
        | false ↦ elim (parse unmarshal parse_addr (trim_space l) id) [
          | err e ↦ ([], bad_line (n + 1) id e)
          | ok r ↦ elim (id == max_uint32) [
            | true ↦ ([], ids_exceeded (n + 1))
            | false ↦ push r rest
          ]
        ]
      ]

  reader : List Bytes → Bool → ℕ → ℕ → Reader
  reader ls failure id n = record { lines = ls; failure = failure; next_id = id; line = n }

  read_all-rows_from :
      (ls : List Bytes) (fuel : ℕ) (failure : Bool) (id n : ℕ)
      → length ls ≤ fuel
      → read_all unmarshal parse_addr (suc fuel) (reader ls failure id n)
        ≡ rows_from ls failure id n
  unfolding read_all rows_from reader next take_line
  read_all-rows_from [] fuel true id n h = refl
  read_all-rows_from [] fuel false id n h = refl
  read_all-rows_from (l ∷ ls) zero failure id n h = absurd (omega arith)
  read_all-rows_from (l ∷ ls) (suc fuel) failure id n h = ground (
    arith,
    read_all-rows_from ls (suc fuel) failure id (n + 1),
    read_all-rows_from ls fuel failure (id + 1) (n + 1),
  )

  -- The texts parse to the rows, in order, the first under `id` and each next one under the next ID,
  -- all below the last 32-bit ID.
  abbrev pub ParsesTo : ℕ → List Bytes → List Row → Type 0
  ParsesTo id [] [] = Unit {0}
  ParsesTo id [] (r ∷ rs) = ⊥
  ParsesTo id (t ∷ ts) [] = ⊥
  ParsesTo id (t ∷ ts) (r ∷ rs) =
      (parse unmarshal parse_addr t id ≡ ok r) × (id ≢ max_uint32) × ParsesTo (id + 1) ts rs

  rows_from_sound :
      (ls : List Bytes) (failure : Bool) (id n : ℕ) (rows : List Row)
      → rows_from ls failure id n ≡ (rows, end_of_file)
      → ParsesTo id (texts_of ls) rows × (failure ≡ false)
  unfolding rows_from
  rows_from_sound [] true id n rows h = absurd (ground arith)
  rows_from_sound [] false id n [] h = (tt, refl)
  rows_from_sound [] false id n (r ∷ rs) h = absurd (ground arith)
  rows_from_sound (l ∷ ls) failure id n [] h = ground (
    arith,
    rows_from_sound ls failure id (n + 1) [],
    rows_from_sound ls failure (id + 1) (n + 1) [],
  )
  rows_from_sound (l ∷ ls) failure id n (r ∷ rs) h = ground (
    arith,
    rows_from_sound ls failure id (n + 1) (r ∷ rs),
    rows_from_sound ls failure (id + 1) (n + 1) rs,
  )

  rows_from_complete :
      (ls : List Bytes) (id n : ℕ) (rows : List Row)
      → ParsesTo id (texts_of ls) rows
      → rows_from ls false id n ≡ (rows, end_of_file)
  unfolding rows_from
  rows_from_complete [] id n [] h = refl
  rows_from_complete [] id n (r ∷ rs) h = absurd h
  rows_from_complete (l ∷ ls) id n [] h = ground (arith, rows_from_complete ls id (n + 1) [])
  rows_from_complete (l ∷ ls) id n (r ∷ rs) h =
      ground (
        arith,
        rows_from_complete ls id (n + 1) (r ∷ rs),
        rows_from_complete ls (id + 1) (n + 1) rs,
      )

  -- Reading to the end of the file succeeds with these rows exactly when the scanner did not fail and
  -- the lines that are not blank parse to them in file order, the first under the reader's next ID and
  -- each later one under the ID after it, none of them the last 32-bit number. One call of `Next` more
  -- than there are lines is enough.
  pub read_all_iff :
      (s : Reader) (rows : List Row)
      → (read_all unmarshal parse_addr (suc (length s.lines)) s ≡ (rows, end_of_file))
        ↔ (ParsesTo s.next_id (texts_of s.lines) rows × (s.failure ≡ false))
  unfolding reader
  read_all_iff s rows = (
    (λ h. rows_from_sound s.lines s.failure s.next_id s.line rows (sym (step s.failure) ∙ h)),
    (λ h.
        step s.failure
        ∙ ap (λ f. rows_from s.lines f s.next_id s.line) h.1
        ∙ rows_from_complete s.lines s.next_id s.line rows h.0),
  )
    where
      step :
          (f : Bool)
          → read_all unmarshal parse_addr (suc (length s.lines)) s
            ≡ rows_from s.lines s.failure s.next_id s.line
      step f = read_all-rows_from s.lines (length s.lines) s.failure s.next_id s.line (omega arith)

  abbrev pub IsNumbered : ℕ → List Row → Type 0
  IsNumbered id [] = Unit {0}
  IsNumbered id (r ∷ rs) = (r.pdid ≡ id) × (id < max_uint32) × IsNumbered (id + 1) rs

  parse-pdid : (t : Bytes) (id : ℕ) (r : Row) → parse unmarshal parse_addr t id ≡ ok r → r.pdid ≡ id
  parse-pdid t id r h = ap (λ x. x.pdid) ((parse_lem unmarshal parse_addr t id r).0 h).makes

  rows_from-IsNumbered :
      (ls : List Bytes) (failure : Bool) (id n : ℕ)
      → id ≤ max_uint32
      → IsNumbered id (rows_from ls failure id n).0
  unfolding rows_from
  rows_from-IsNumbered [] failure id n h = tt
  rows_from-IsNumbered (l ∷ ls) failure id n h = grind (
    arith,
    rows_from-IsNumbered ls failure id (n + 1),
    rows_from-IsNumbered ls failure (id + 1) (n + 1),
    parse-pdid,
  )

  -- However the loop ends, the rows that it got have consecutive IDs from the reader's next ID on,
  -- and no ID wraps around 32 bits.
  pub read_all-IsNumbered :
      (s : Reader)
      → s.next_id ≤ max_uint32
      → IsNumbered s.next_id (read_all unmarshal parse_addr (suc (length s.lines)) s).0
  unfolding reader
  read_all-IsNumbered s h =
      rw (read_all-rows_from s.lines (length s.lines) s.failure s.next_id s.line (omega arith))
        (rows_from-IsNumbered s.lines s.failure s.next_id s.line h)
