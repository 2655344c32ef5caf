-- ===== src/Fies/File.antt =====
-- internal/fies/source.go: `File`, one fies2a capture file with its interval and planned rows.
use fie_importer.Prelude.{ℕ, ◌+ℤ◌}
use fie_importer.Prelude.Time.{Time, Duration}
use Prim.Native.String.{String}

pub record File : Type 0 where
  pub path : String
  pub interval_start : Time
  pub interval : Duration
  -- `Rows` is set by `Plan` from a count.
  pub rows : ℕ

-- `f.IntervalStart.Add(f.Interval)`
unfoldable pub end : File → Time
end f = f.interval_start +ℤ f.interval
