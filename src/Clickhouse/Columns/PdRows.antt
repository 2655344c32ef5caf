-- ===== src/Clickhouse/Columns/PdRows.antt =====
-- The values of a PD row.
use fie_importer.Prelude.{
  ℕ, ◌^◌, ◌<◌, ◌≡◌, refl, true, Option, some, List, arith, ltb, if◌then◌else◌, length,
}
use fie_importer.Prelude.Bytes.{Bytes, codes}
use fie_importer.Net.{Addr, IsAddr, unmap, is_4}
use fie_importer.Pds.Parse.{Line, Row, ok, parse}
use fie_importer.Pds.Parse.Accepts.{Carries, parse_lem}
use fie_importer.Pds.Parse.Fields.{parse-IsDirective}
use fie_importer.Clickhouse.Columns.{
  Value, text, uint, address, pd_columns, pd_values, RowFits, in_column, ◌⊗◌,
}

-- The widths of the numbers of a line: `uint8` and `uint16`
pub record HasWidths (l : Line) : Type 0 where
  pub near_ttl : l.near_ttl < 2 ^ 8
  pub words : (w : ℕ × ℕ) → Carries l w → (w.0 < 2 ^ 16) × (w.1 < 2 ^ 16)

-- Each field of the row stands in the column of its name.
pub record IsPdRow (r : Row) (vs : List Value) : Type 0 where
  pub pd_id : in_column (codes "pd_id") pd_columns vs ≡ uint 32 r.pdid
  pub agent_id : in_column (codes "agent_id") pd_columns vs ≡ text r.agent_id
  pub ip_version : in_column (codes "ip_version") pd_columns vs ≡ uint 8 r.ip_version
  pub protocol : in_column (codes "protocol") pd_columns vs ≡ uint 8 r.protocol
  pub destination : in_column (codes "destination_addr") pd_columns vs ≡ address r.destination
  pub near_ttl : in_column (codes "near_ttl") pd_columns vs ≡ uint 8 r.near_ttl
  pub first_half_word :
      in_column (codes "first_half_word") pd_columns vs ≡ uint 16 r.first_half_word
  pub second_half_word :
      in_column (codes "second_half_word") pd_columns vs ≡ uint 16 r.second_half_word

pd_values-IsPdRow : (r : Row) → IsPdRow r (pd_values r)
unfolding pd_values
pd_values-IsPdRow r = record {
  pd_id = refl;
  agent_id = refl;
  ip_version = refl;
  protocol = refl;
  destination = refl;
  near_ttl = refl;
  first_half_word = refl;
  second_half_word = refl;
}

version_fits : (a : Addr) → ltb (if is_4 a then 4 else 6) (2 ^ 8) ≡ true
version_fits a = ground arith

-- The rows that fit, by the numbers and the address in them
row_fits :
    (r : Row)
    → r.pdid < 2 ^ 32
    → ltb r.ip_version (2 ^ 8) ≡ true
    → r.protocol < 2 ^ 8
    → length r.destination ≡ 16
    → r.near_ttl < 2 ^ 8
    → (r.first_half_word < 2 ^ 16) × (r.second_half_word < 2 ^ 16)
    → RowFits pd_columns (pd_values r)
unfolding pd_values
row_fits r id version protocol addr ttl words =
    ground arith
    ⊗ refl
    ⊗ version
    ⊗ ground arith
    ⊗ ground arith
    ⊗ ground arith
    ⊗ (let w = words.0 in ground arith)
    ⊗ (let w = words.1 in ground arith)
    ⊗ tt

-- Every row that `Parse` makes of a line, under an ID of 32 bits and where the numbers of the line have the
-- widths of its JSON type, is inserted with one value for each column of the PD table, in the column of its
-- name, and each value fits its column. `netip.ParseAddr` is to return 4 or 16 bytes.
pub pd_values-RowFits :
    (unmarshal : Bytes → Option Line) (parse_addr : Bytes → Option Addr)
    → ((text : Bytes) (a : Addr) → parse_addr text ≡ some a → IsAddr a)
    → ((bytes : Bytes) (l : Line) → unmarshal bytes ≡ some l → HasWidths l)
    → (bytes : Bytes) (id : ℕ) (row : Row) → id < 2 ^ 32
    → parse unmarshal parse_addr bytes id ≡ ok row
    → RowFits pd_columns (pd_values row) × IsPdRow row (pd_values row)
pd_values-RowFits unmarshal parse_addr addrs widths bytes id row small h =
    let accepted = (parse_lem unmarshal parse_addr bytes id row).0 h in
    let directive = parse-IsDirective unmarshal parse_addr addrs bytes id row h in
    let w = widths bytes accepted.line accepted.is_json in
    let made = accepted.makes in
    (
      row_fits row (rw directive.same_id small) (rw made (version_fits (unmap accepted.addr)))
          (rw made (omega arith)) directive.destination.length_16 (rw made w.near_ttl)
          (rw made (w.words accepted.words accepted.carries)),
      pd_values-IsPdRow row,
    )
