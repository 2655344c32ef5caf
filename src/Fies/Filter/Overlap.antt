-- ===== src/Fies/Filter/Overlap.antt =====
-- `overlaps`, by which `init` drops the files outside the time window, and `Validate`.
use fie_importer.Prelude.Time.{seconds}
use fie_importer.Prelude.{
  ℕ, ◌≡◌, refl, sym, ◌∙◌, ◌↔◌, ◌⊎◌, Bool, true, false, ◌&&◌, ◌||◌, none, [], arith, pos, ◌≤ℤ◌, ◌<ℤ◌,
  ltb_ℤ, leb_ℤ, +ℤ_parts,
}
use fie_importer.Prelude.Double.{is_nought, is_below, is_above}
use fie_importer.Fies.File.{end, File}
use fie_importer.Fies.Row.{Raw2a}
use fie_importer.Fies.Filter.{is_zero, Time, pos, ℕ, none, [], Filter, overlaps, selects, validate}
use fie_importer.Fies.Filter.Select.{IsInFile, capture_time, selects_same}

-- A capture time in the filter's window lies in the interval of its file.
end-after : (f : File) (raw : Raw2a) → IsInFile f raw → capture_time f raw <ℤ end f
unfolding end
end-after f raw h = ground (
  arith,
  h.in_interval,
  +ℤ_parts f.interval_start f.interval,
  +ℤ_parts f.interval_start (seconds raw.capture_second),
)

start-le : (f : File) (raw : Raw2a) → f.interval_start ≤ℤ capture_time f raw
start-le f raw = omega (arith, +ℤ_parts f.interval_start (seconds raw.capture_second))

overlaps_of_window :
    (flt : Filter) (f : File) (t : Time)
    → f.interval_start ≤ℤ t
    → t <ℤ end f
    → (is_zero flt.start || leb_ℤ flt.start t) ≡ true
    → (is_zero flt.end || ltb_ℤ t flt.end) ≡ true
    → overlaps flt f ≡ true
unfolding overlaps
overlaps_of_window flt f t hs he p q = ground arith

and_true : (a b : Bool) → (a && b) ≡ true → (a ≡ true) × (b ≡ true)
and_true true true h = (refl, refl)
and_true true false h = cc
and_true false b h = cc

-- Dropping the files that do not overlap the time window loses nothing: a file with a row that its
-- WHERE clause selects overlaps the window.
pub overlaps-selects :
    (hash : ℕ → ℕ → ℕ) (flt : Filter) (f : File) (raw : Raw2a)
    → IsInFile f raw
    → selects hash flt f raw ≡ true
    → overlaps flt f ≡ true
overlaps-selects hash flt f raw h s =
    let window = (and_true _ _ (sym (selects_same hash flt f raw h) ∙ s)).1 in
    let (p, q) = and_true _ _ window in
    overlaps_of_window flt f (capture_time f raw) (start-le f raw) (end-after f raw h) p q

-- A filter that `Validate` accepts.
pub record IsUsable (f : Filter) : Type 0 where
  pub one_pd_choice : (f.pdids ≡ []) ⊎ (is_nought f.percent ≡ true)
  pub not_below_zero : is_below f.percent 0 ≡ false
  pub not_above_hundred : is_above f.percent 100 ≡ false
  pub window_nonempty : (f.start ≡ pos 0) ⊎ (f.end ≡ pos 0) ⊎ (f.start <ℤ f.end)

-- `Validate` accepts a filter exactly when it does not combine a PD list with a percentage, the
-- percentage is not below 0 and not above 100, as NaN is neither, and the start is before the end where both are given.
pub validate_iff : (f : Filter) → (validate f ≡ none) ↔ IsUsable f
unfolding validate
validate_iff f = (ground arith, ground arith)
