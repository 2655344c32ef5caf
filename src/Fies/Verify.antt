-- ===== src/Fies/Verify.antt =====
-- `Verify` of internal/fies/merge.go, which reads a merged file back. Its query is read as what it means of
-- the rows of the file, in file order; the order of the groups is that in which they first occur.
pub mod Sound
pub mod Merged
pub mod Files
pub mod Segments
use fie_importer.Prelude.{
  ℕ, suc, ◌/◌, ◌%◌, Bool, true, false, not, ◌&&◌, ◌||◌, Option, none, some, List, [], ◌∷◌, ◌++◌,
  map, ltb, ◌==◌, if◌then◌else◌, ℤ, pos, negsuc, sub_ℕ, ltb_ℤ, leb_ℤ, ◌-ℤ◌, keep_if,
}
use fie_importer.Prelude.Time.{Time, second, trunc_div, unix}
use fie_importer.Fies.File.{File}

-- `pd_id` and `capture_time`, in Unix seconds
pub record MergedRow : Type 0 where
  pub pd_id : ℕ
  pub capture_time : ℤ

abbrev pub eq_ℤ : ℤ → ℤ → Bool
eq_ℤ a b = leb_ℤ a b && leb_ℤ b a

abbrev pub magnitude : ℤ → ℕ
magnitude (pos n) = n
magnitude (negsuc n) = suc n

abbrev pub is_negative : ℤ → Bool
is_negative (pos n) = false
is_negative (negsuc n) = true

-- Go's `a / b`, and DuckDB's `a // b`, for b other than 0: towards zero
unfoldable pub quotient : ℤ → ℤ → ℤ
quotient a b =
    let q = magnitude a / magnitude b in
    elim (is_negative a) [
      | false ↦ elim (is_negative b) [ false ↦ pos q | true ↦ sub_ℕ 0 q ]
      | true ↦ elim (is_negative b) [ false ↦ sub_ℕ 0 q | true ↦ pos q ]
    ]

-- `a % b != 0`
abbrev pub has_remainder : ℤ → ℤ → Bool
has_remainder a b = not (magnitude a % magnitude b == 0)

-- `want`, the numbers of rows by segment
abbrev pub Want : Type 0
Want = List (ℤ × ℕ)

unfoldable pub want_of : ℤ → Want → Option ℕ
want_of seg [] = none
want_of seg ((s, n) ∷ m) = if eq_ℤ s seg then some n else want_of seg m

-- `delete(want, seg)`
unfoldable pub delete : ℤ → Want → Want
delete seg [] = []
delete seg ((s, n) ∷ m) = let rest = delete seg m in if eq_ℤ s seg then rest else (s, n) ∷ rest

pub data Wanted : Type 0 where
  not_aligned divides_by_zero : Wanted
  wanted : Want → Wanted

-- The loop over the files, with `want` so far. `offset%secs` with 0 panics.
unfoldable pub want_from : ℤ → ℤ → List File → Want → Wanted
unfolding delete quotient unix
want_from origin secs [] m = wanted m
want_from origin secs (f ∷ files) m =
    let offset = unix f.interval_start -ℤ origin in
    let seg = quotient offset secs in
    let rest = want_from origin secs files ((seg, f.rows) ∷ delete seg m) in
    if not (eq_ℤ (trunc_div f.interval second) secs)
    then not_aligned
    else if eq_ℤ secs (pos 0)
    then divides_by_zero
    else if has_remainder offset secs
    then not_aligned
    else rest

-- The groups of the query
pub record Group : Type 0 where
  pub seg : ℤ
  pub n : ℕ
  pub back : ℕ
  pub unsorted : ℕ

abbrev pub count_if {ℓ} : {A : Type ℓ} → (A → Bool) → List A → ℕ
count_if p [] = 0
count_if p (x ∷ xs) = if p x then suc (count_if p xs) else count_if p xs

-- Each row with the one before it, as `lag(…) OVER ()`
abbrev pub with_lag : List MergedRow → List (MergedRow × MergedRow)
with_lag [] = []
with_lag (r ∷ []) = []
with_lag (p ∷ r ∷ rows) = (p, r) ∷ with_lag (r ∷ rows)

abbrev pub distinct : List ℤ → List ℤ
distinct [] = []
distinct (s ∷ segs) = s ∷ keep_if (λ x. not (eq_ℤ s x)) (distinct segs)

module _ (origin secs : ℤ) where
  unfoldable pub seg_of : MergedRow → ℤ
  unfolding quotient
  seg_of r = quotient (r.capture_time -ℤ origin) secs

  -- `pseg IS NOT NULL AND seg < pseg`
  abbrev pub goes_back : MergedRow × MergedRow → Bool
  goes_back (p, r) = ltb_ℤ (seg_of r) (seg_of p)

  -- `pseg = seg AND (pd_id < ppd OR (pd_id = ppd AND capture_time < pt))`
  abbrev pub is_unsorted : MergedRow × MergedRow → Bool
  is_unsorted (p, r) =
      eq_ℤ (seg_of p) (seg_of r)
      && (ltb r.pd_id p.pd_id || (r.pd_id == p.pd_id && ltb_ℤ r.capture_time p.capture_time))

  unfoldable pub group_of : List MergedRow → ℤ → Group
  unfolding seg_of
  group_of rows seg = record {
    seg = seg;
    n = count_if (λ r. eq_ℤ (seg_of r) seg) rows;
    back = count_if (λ x. eq_ℤ (seg_of x.1) seg && goes_back x) (with_lag rows);
    unsorted = count_if (λ x. eq_ℤ (seg_of x.1) seg && is_unsorted x) (with_lag rows);
  }

  unfoldable pub groups : List MergedRow → List Group
  unfolding group_of
  groups rows = map (group_of rows) (distinct (map seg_of rows))

pub data Problem : Type 0 where
  wrong_count : ℤ → ℕ → Problem
  starts_after_later : ℤ → ℕ → Problem
  out_of_order : ℤ → ℕ → Problem
  no_rows : ℤ → ℕ → Problem

abbrev pub is_wanted : Option ℕ → ℕ → Bool
is_wanted none n = false
is_wanted (some w) n = w == n

-- The body of the loop over the groups
unfoldable pub group_problems : Group → Option ℕ → List Problem
group_problems g w =
    (if is_wanted w g.n then [] else wrong_count g.seg g.n ∷ [])
    ++ ((if ltb 0 g.back then starts_after_later g.seg g.back ∷ [] else [])
        ++ (if ltb 0 g.unsorted then out_of_order g.seg g.unsorted ∷ [] else []))

-- The loop over what is left of `want`
unfoldable pub missing : Want → List Problem
missing [] = []
missing ((seg, w) ∷ m) = let rest = missing m in if ltb 0 w then no_rows seg w ∷ rest else rest

unfoldable pub check_groups : List Group → Want → List Problem
unfolding want_of delete group_problems missing
check_groups [] m = missing m
check_groups (g ∷ gs) m = group_problems g (want_of g.seg m) ++ check_groups gs (delete g.seg m)

pub data Verification : Type 0 where
  cannot_verify panics : Verification
  has_problems : List Problem → Verification

abbrev pub verification : ℤ → ℤ → List MergedRow → Wanted → Verification
verification origin secs rows not_aligned = cannot_verify
verification origin secs rows divides_by_zero = panics
verification origin secs rows (wanted m) = has_problems (check_groups (groups origin secs rows) m)

-- `Verify`, without the errors of its query: it returns nil if there are no problems. An empty source
-- has no first file.
unfoldable pub verify : List File → List MergedRow → Verification
unfolding want_from check_groups groups
verify [] rows = panics
verify (f ∷ files) rows =
    let origin = unix f.interval_start in
    let secs = trunc_div f.interval second in
    verification origin secs rows (want_from origin secs (f ∷ files) [])
