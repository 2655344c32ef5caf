-- ===== src/Pds/Reader.antt =====
-- internal/pds/pds.go: `Reader` and `Next`, and the loops that call it until io.EOF.
-- The scanner is what is left of its lines and the error behind them; its buffers, the gzip reader
-- and the byte counter are not modelled. `bytes.TrimSpace` is modelled on ASCII space.
pub mod Ids
use fie_importer.Prelude.{
  ℕ, zero, suc, ◌+◌, ◌-◌, ◌^◌, Bool, ◌&&◌, ◌||◌, Option, List, [], ◌∷◌, leb, ◌==◌, if◌then◌else◌,
  is_empty,
}
use fie_importer.Prelude.Bytes.{Bytes}
use fie_importer.Net.{Addr}
use fie_importer.Pds.Parse.{Line, Row, Result, ok, err, ParseError, parse}

abbrev is_space : ℕ → Bool
is_space c = c == b' ' || (leb 9 c && leb c 13)

unfoldable pub trim_left : Bytes → Bytes
trim_left [] = []
trim_left (c ∷ s) = if is_space c then trim_left s else c ∷ s

unfoldable pub trim_right : Bytes → Bytes
trim_right [] = []
trim_right (c ∷ s) = let rest = trim_right s in if is_space c && is_empty rest then [] else c ∷ rest

unfoldable pub trim_space : Bytes → Bytes
unfolding trim_left trim_right
trim_space s = trim_right (trim_left s)

pub record Reader : Type 0 where
  pub lines : List Bytes
  -- `scanner.Err()` behind the last line
  pub failure : Bool
  pub next_id : ℕ
  pub line : ℕ

pub data Next : Type 0 where
  row : Row → Next
  end_of_file : Next
  -- "line %d (PD %d)", "line %d: PD IDs exceed 32 bits", "after line %d"
  bad_line : ℕ → ℕ → ParseError → Next
  ids_exceeded read_failed : ℕ → Next

abbrev pub max_uint32 : ℕ
max_uint32 = 2 ^ 32 - 1

abbrev pub push : Row → List Row × Next → List Row × Next
push r (rs, last) = (r ∷ rs, last)

module _ (unmarshal : Bytes → Option Line) (parse_addr : Bytes → Option Addr) where
  -- What happens to a line that is not blank; `s` is the reader behind it.
  unfoldable pub take_line : Reader → Bytes → Next × Reader
  take_line s text = elim (parse unmarshal parse_addr text s.next_id) [
    | err e ↦ (bad_line s.line s.next_id e, s)
    | ok r ↦
        if s.next_id == max_uint32
        then (ids_exceeded s.line, s)
        else (row r, record s { next_id = s.next_id + 1 })
  ]

  -- The loop over `scanner.Scan()`.
  unfoldable pub next_from : List Bytes → Bool → ℕ → ℕ → Next × Reader
  unfolding take_line
  next_from [] failure id n = (
    if failure then read_failed n else end_of_file,
    record { lines = []; failure = failure; next_id = id; line = n },
  )
  next_from (l ∷ ls) failure id n =
      let text = trim_space l in
      let skipped = next_from ls failure id (n + 1) in
      let behind : Reader = record { lines = ls; failure = failure; next_id = id; line = n + 1 } in
      if is_empty text then skipped else take_line behind text

  unfoldable pub next : Reader → Next × Reader
  unfolding next_from
  next s = next_from s.lines s.failure s.next_id s.line

  -- `for { row, err := reader.Next() … }`: the rows, and the error that ended the loop, if any. Each
  -- round reads a line, so one more round than there are lines is enough.
  unfoldable pub read_all : ℕ → Reader → List Row × Next
  read_all zero s = ([], end_of_file)
  read_all (suc fuel) s = elim (next s).0 [
    | row r ↦ push r (read_all fuel (next s).1)
    | other ↦ ([], other)
  ]
