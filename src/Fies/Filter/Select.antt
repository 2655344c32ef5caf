-- ===== src/Fies/Filter/Select.antt =====
-- The WHERE clause of a file against the filter's own meaning.
use fie_importer.Prelude.{
  ℕ, ◌∙◌, ◌%◌, ◌^◌, ◌<◌, ◌≡◌, refl, Bool, ◌||◌, ◌&&◌, not, List, [], ◌∷◌, ◌++◌, ℤ, pos, ltb_ℤ,
  leb_ℤ, ltb, is_empty, arith, ◌+ℤ◌, ◌-ℤ◌, ◌<ℤ◌, -ℤ_parts, +ℤ_parts,
}
use fie_importer.Prelude.Time.{Time, seconds, is_zero, second, sub_time, trunc_div, saturate}
use fie_importer.Fies.File.{File}
use fie_importer.Fies.Row.{Raw2a}
use fie_importer.Fies.Filter.Share.{IsSample, filter-IsSample}
use fie_importer.Fies.Filter.{
  Filter, Cond, is_sampling, buckets, threshold, pd_conds, sample_conds, start_conds, end_conds,
  contains, hold_all, selects, ceil_seconds,
}

-- The capture time of a row: the file's start and its capture second.
abbrev pub capture_time : File → Raw2a → Time
capture_time f raw = f.interval_start +ℤ seconds raw.capture_second

-- What `capture_second` is in a well-formed file: a uint16 below the interval's length.
pub record IsInFile (f : File) (raw : Raw2a) : Type 0 where
  pub fits : raw.capture_second < 2 ^ 16
  pub in_interval : pos raw.capture_second <ℤ trunc_div f.interval second

leb-ceil_seconds : (d : ℤ) (c : ℕ) → leb_ℤ (ceil_seconds d) (pos c) ≡ leb_ℤ d (seconds c)
unfolding ceil_seconds
leb-ceil_seconds d c = ground arith

leb-saturate : (d : ℤ) (c : ℕ) → c < 2 ^ 16 → leb_ℤ (saturate d) (seconds c) ≡ leb_ℤ d (seconds c)
leb-saturate d c h = ground arith

leb-minus : (a b : ℤ) (c : ℕ) → leb_ℤ (a -ℤ b) (seconds c) ≡ leb_ℤ a (b +ℤ seconds c)
leb-minus a b c = ground (arith, -ℤ_parts a b, +ℤ_parts b (seconds c))

leb-ceil_sub :
    (a b : ℤ) (c : ℕ)
    → c < 2 ^ 16
    → leb_ℤ (ceil_seconds (sub_time a b)) (pos c) ≡ leb_ℤ a (b +ℤ seconds c)
unfolding sub_time
leb-ceil_sub a b c h = leb-ceil_seconds _ c ∙ leb-saturate _ c h ∙ leb-minus a b c

module _ (hash : ℕ → ℕ → ℕ) (flt : Filter) where
  -- The PDs that the filter keeps: the listed ones, or the sample of the percentage, or all.
  abbrev pub keeps_pd : Raw2a → Bool
  keeps_pd raw =
      (is_empty flt.pdids || contains flt.pdids raw.pdid)
      && (not (is_sampling flt.percent)
          || ltb (hash raw.pdid flt.seed % buckets) (threshold flt.percent))

  module _ (f : File) (raw : Raw2a) where
    hold_all-append :
        (cs ds : List Cond)
        → hold_all hash flt raw (cs ++ ds) ≡ (hold_all hash flt raw cs && hold_all hash flt raw ds)
    hold_all-append [] ds = refl
    hold_all-append (c ∷ cs) ds = ground (arith, hold_all-append cs ds)

    hold_pds :
        (hold_all hash flt raw (pd_conds flt) && hold_all hash flt raw (sample_conds flt))
        ≡ keeps_pd raw
    unfolding pd_conds sample_conds
    hold_pds = ground arith

    module _ (h : IsInFile f raw) where
      hold_start :
          hold_all hash flt raw (start_conds flt f)
          ≡ (is_zero flt.start || leb_ℤ flt.start (capture_time f raw))
      unfolding start_conds
      hold_start = ground (arith, leb-ceil_sub flt.start f.interval_start raw.capture_second h.fits)

      hold_end :
          hold_all hash flt raw (end_conds flt f)
          ≡ (is_zero flt.end || ltb_ℤ (capture_time f raw) flt.end)
      unfolding end_conds
      hold_end =
          ground
            (arith, h.in_interval, leb-ceil_sub flt.end f.interval_start raw.capture_second h.fits)

      pub selects_same : selects hash flt f raw ≡ (
          keeps_pd raw
          && ((is_zero flt.start || leb_ℤ flt.start (capture_time f raw))
              && (is_zero flt.end || ltb_ℤ (capture_time f raw) flt.end)))
      unfolding selects
      selects_same = ground (
        arith,
        hold_all-append (pd_conds flt) (sample_conds flt ++ (start_conds flt f ++ end_conds flt f)),
        hold_all-append (sample_conds flt) (start_conds flt f ++ end_conds flt f),
        hold_all-append (start_conds flt f) (end_conds flt f),
        hold_start,
        hold_end,
        hold_pds,
      )

      -- A row of a well-formed file, whose capture second is a uint16 below the length of the file, passes the
      -- WHERE clause exactly when the filter keeps its PD and its capture time lies in [Start, End), where a
      -- zero time is no bound. A sample keeps the PDs whose hash falls in the first `threshold` of the million
      -- buckets, and `threshold` is less than one bucket, but for 2⁻³⁰ of one, off the exact percentage of them.
      pub selects_lem :
          (selects hash flt f raw ≡ (
            keeps_pd raw
            && ((is_zero flt.start || leb_ℤ flt.start (capture_time f raw))
                && (is_zero flt.end || ltb_ℤ (capture_time f raw) flt.end))))
          × IsSample flt
      selects_lem = (selects_same, filter-IsSample flt)
