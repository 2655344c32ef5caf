-- ===== src/Clickhouse/Columns/FieRows.antt =====
-- The values of a FIE row.
use fie_importer.Prelude.{ℕ, ◌^◌, ◌<◌, ◌≡◌, refl, true, Option, none, some, List, arith, length}
use fie_importer.Prelude.Bytes.{Bytes, codes}
use fie_importer.Prelude.Time.{Time}
use fie_importer.Fies.Row.{Row, Raw2a, convert2a, to_ipv6}
use fie_importer.Fies.Row.Address.{length-to_ipv6}
use fie_importer.Clickhouse.Columns.{
  Value, literal, uint, instant, address, pointer, fie_columns, fie_values, fits, RowFits,
  in_column, ◌⊗◌, ipv6_column, uint_column, date_time, nullable,
}

-- Each field of the row stands in the column of its name.
pub record IsFieRow (r : Row) (vs : List Value) : Type 0 where
  pub source_format : in_column (codes "source_format") fie_columns vs ≡ literal r.source_format
  pub pd_id : in_column (codes "pd_id") fie_columns vs ≡ uint 32 r.pdid
  pub capture_time : in_column (codes "capture_time") fie_columns vs ≡ instant r.capture_time
  pub fie_transit :
      in_column (codes "fie_transit_s") fie_columns vs ≡ pointer (uint 8) r.fie_transit_s
  pub near_reply_addr :
      in_column (codes "near_reply_addr") fie_columns vs ≡ pointer address r.near_reply_addr
  pub far_reply_addr :
      in_column (codes "far_reply_addr") fie_columns vs ≡ pointer address r.far_reply_addr
  pub near_probe_sent_time :
      in_column (codes "near_probe_sent_time") fie_columns vs
      ≡ pointer instant r.near_probe_sent_time
  pub near_reply_recv_time :
      in_column (codes "near_reply_recv_time") fie_columns vs
      ≡ pointer instant r.near_reply_recv_time
  pub far_probe_sent_time :
      in_column (codes "far_probe_sent_time") fie_columns vs ≡ pointer instant r.far_probe_sent_time
  pub far_reply_recv_time :
      in_column (codes "far_reply_recv_time") fie_columns vs ≡ pointer instant r.far_reply_recv_time

fie_values-IsFieRow : (r : Row) → IsFieRow r (fie_values r)
unfolding fie_values
fie_values-IsFieRow r = record {
  source_format = refl;
  pd_id = refl;
  capture_time = refl;
  fie_transit = refl;
  near_reply_addr = refl;
  far_reply_addr = refl;
  near_probe_sent_time = refl;
  near_reply_recv_time = refl;
  far_probe_sent_time = refl;
  far_reply_recv_time = refl;
}

pub fits-address :
    (b : Option Bytes)
    → ((v : Bytes) → b ≡ some v → length v ≡ 16)
    → fits (nullable ipv6_column) (pointer address b) ≡ true
fits-address none h = refl
fits-address (some v) h = let e = h v refl in ground arith

pub fits-uint :
    (w : ℕ) (n : Option ℕ)
    → ((k : ℕ) → n ≡ some k → k < 2 ^ w)
    → fits (nullable (uint_column w)) (pointer (uint w) n) ≡ true
fits-uint w none h = refl
fits-uint w (some k) h = let e = h k refl in ground arith

pub fits-instant : (t : Option Time) → fits (nullable date_time) (pointer instant t) ≡ true
fits-instant none = refl
fits-instant (some t) = refl

-- Every row that `Convert2a` makes of a capture row, whose numbers have the widths that they have there, is
-- inserted with one value for each column of the FIE table, in the column of its name, and each value fits its
-- column: it is NULL only where the column may be, an integer has the width of the column, and an address
-- has 16 bytes.
pub fie_values-RowFits :
    (raw : Raw2a) (start : Time)
    → raw.pdid < 2 ^ 32
    → ((k : ℕ) → raw.fie_transit_s ≡ some k → k < 2 ^ 8)
    → RowFits fie_columns (fie_values (convert2a raw start))
      × IsFieRow (convert2a raw start) (fie_values (convert2a raw start))
unfolding fie_values convert2a
fie_values-RowFits raw start id transit = (
  refl
      ⊗ ground arith
      ⊗ refl
      ⊗ fits-uint 8 raw.fie_transit_s transit
      ⊗ fits-address (to_ipv6 raw.near_reply_addr) (λ v. length-to_ipv6 raw.near_reply_addr v)
      ⊗ fits-address (to_ipv6 raw.far_reply_addr) (λ v. length-to_ipv6 raw.far_reply_addr v)
      ⊗ refl
      ⊗ fits-instant _
      ⊗ refl
      ⊗ fits-instant _
      ⊗ tt,
  fie_values-IsFieRow (convert2a raw start),
)
