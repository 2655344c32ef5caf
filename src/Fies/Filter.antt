-- ===== src/Fies/Filter.antt =====
-- internal/fies/source.go: `Filter`, `Validate`, `overlaps`, `where` and `ceilSeconds`.
-- The WHERE clause is kept as the list of its conditions, which the source joins by " AND ".
pub mod Select
pub mod Overlap
pub mod Share
use fie_importer.Prelude.{
  ℕ, suc, ◌+◌, ◌-◌, ◌*◌, ◌/◌, ◌%◌, ◌^◌, Bool, true, false, ◌||◌, ◌&&◌, not, Option, none, some,
  List, [], ◌∷◌, ◌++◌, ℤ, pos, negsuc, ltb_ℤ, leb_ℤ, ltb, is_empty, sub_ℕ, ◌==◌, if◌then◌else◌,
}
use fie_importer.Prelude.Double.{Double, number, is_nought, is_below, is_above, rounded}
use fie_importer.Prelude.Time.{Time, Duration, is_zero, before, after, second, sub_time, trunc_div}
use fie_importer.Fies.File.{File, end}
use fie_importer.Fies.Row.{Raw2a}

pub record Filter : Type 0 where
  pub pdids : List ℕ
  pub percent : Double
  pub seed : ℕ
  pub start : Time
  pub end : Time

pub data FilterError : Type 0 where
  pdids_and_percent percent_out_of_range start_not_before_end : FilterError

-- `none` is a nil error.
unfoldable pub validate : Filter → Option FilterError
validate f =
    if not (is_empty f.pdids) && not (is_nought f.percent)
    then some pdids_and_percent
    else if is_below f.percent 0 || is_above f.percent 100
    then some percent_out_of_range
    else if not (is_zero f.start) && not (is_zero f.end) && not (before f.start f.end)
    then some start_not_before_end
    else none

unfoldable pub overlaps : Filter → File → Bool
overlaps flt f =
    if not (is_zero flt.start) && not (after (end f) flt.start)
    then false
    else is_zero flt.end || before f.interval_start flt.end

-- `int64(math.Ceil(d.Seconds()))`; a double holds the seconds below 2²³ finely enough for this.
unfoldable pub ceil_seconds : Duration → ℤ
ceil_seconds (pos n) = pos ((n + (second - 1)) / second)
ceil_seconds (negsuc n) = sub_ℕ 0 (suc n / second)

pub data Cond : Type 0 where
  -- pd_id IN (SELECT pd_id FROM pd_filter)
  in_pd_filter : Cond
  -- hash(pd_id, seed) % buckets < threshold
  hash_below : ℕ → ℕ → ℕ → Cond
  -- capture_second >= from, capture_second < to
  capture_ge capture_lt : ℤ → Cond

abbrev pub buckets : ℕ
buckets = 1_000_000

-- `s.filter.Percent > 0 && s.filter.Percent < 100`
abbrev pub is_sampling : Double → Bool
is_sampling p = is_above p 0 && is_below p 100

-- `uint64(s.filter.Percent / 100 * buckets)`, which is computed for a number between 0 and 100 only
unfoldable pub threshold : Double → ℕ
unfolding rounded
threshold (number false n k) =
    let (q, s) = rounded n (100 * 2 ^ k) in let (r, t) = rounded (q * buckets) (2 ^ s) in r / 2 ^ t
threshold p = 0

unfoldable pub pd_conds : Filter → List Cond
pd_conds flt = if not (is_empty flt.pdids) then in_pd_filter ∷ [] else []

unfoldable pub sample_conds : Filter → List Cond
sample_conds flt =
    if is_sampling flt.percent then hash_below flt.seed buckets (threshold flt.percent) ∷ [] else []

unfoldable pub start_conds : Filter → File → List Cond
start_conds flt f =
    let from = ceil_seconds (sub_time flt.start f.interval_start) in
    if is_zero flt.start then [] else if ltb_ℤ (pos 0) from then capture_ge from ∷ [] else []

unfoldable pub end_conds : Filter → File → List Cond
end_conds flt f =
    let to = ceil_seconds (sub_time flt.end f.interval_start) in
    if is_zero flt.end
    then []
    else if ltb_ℤ to (trunc_div f.interval second)
    then capture_lt to ∷ []
    else []

unfoldable pub where_conds : Filter → File → List Cond
where_conds flt f = pd_conds flt ++ (sample_conds flt ++ (start_conds flt f ++ end_conds flt f))

abbrev pub contains : List ℕ → ℕ → Bool
contains [] a = false
contains (x ∷ xs) a = a == x || contains xs a

-- DuckDB's reading of the conditions: `hash` is its hash of a PD ID and a seed.
module _ (hash : ℕ → ℕ → ℕ) where
  abbrev pub holds : Filter → Raw2a → Cond → Bool
  holds flt raw in_pd_filter = contains flt.pdids raw.pdid
  holds flt raw (hash_below seed n t) = ltb (hash raw.pdid seed % n) t
  holds flt raw (capture_ge from) = leb_ℤ from (pos raw.capture_second)
  holds flt raw (capture_lt to) = ltb_ℤ (pos raw.capture_second) to

  abbrev pub hold_all : Filter → Raw2a → List Cond → Bool
  hold_all flt raw [] = true
  hold_all flt raw (c ∷ cs) = holds flt raw c && hold_all flt raw cs

  -- Does the row of the file pass the WHERE clause?
  unfoldable pub selects : Filter → File → Raw2a → Bool
  unfolding where_conds
  selects flt f raw = hold_all flt raw (where_conds flt f)
