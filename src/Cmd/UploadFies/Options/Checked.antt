-- ===== src/Cmd/UploadFies/Options/Checked.antt =====
-- What a filter that is made from the options satisfies.
use fie_importer.Prelude.{
  ℕ, ◌+◌, ◌-◌, ◌*◌, ◌≤◌, ◌≡◌, refl, sym, ap, ◌∙◌, ◌≢◌, inl, inr, Bool, true, not, ◌||◌, Option,
  none, some, List, [], ◌∷◌, arith, Bool-cases, is_empty, All,
}
use fie_importer.Prelude.Bytes.{Bytes}
use fie_importer.Prelude.Time.{Time}
use fie_importer.Pds.Reader.{trim_space}
use fie_importer.Text.Decimal.{parse_uint, scan}
use fie_importer.Prelude.Double.{Double}
use fie_importer.Fies.Filter.{Filter, FilterError, validate}
use fie_importer.Cmd.Error.{ok, on_value-ok}
use fie_importer.Cmd.UploadFies.Options.{
  FilterOptions, max_id, id_or_error, filter_or_error, parse_ids, parse_time_flag, id_texts,
  check_ids, check_percent, validated, filter,
}

scan-le : (top n : ℕ) (s : Bytes) (m : ℕ) → n ≤ top → scan top n s ≡ some m → m ≤ top
unfolding scan
scan-le top n [] m h e = let same : n ≡ m = cc in omega (arith, same)
scan-le top n (c ∷ s) m h e = ground (arith, scan-le top (n * 10 + (c - b'0')) s m)

parse_uint-le : (top : ℕ) (s : Bytes) (m : ℕ) → parse_uint top s ≡ some m → m ≤ top
unfolding parse_uint
parse_uint-le top [] m e = cc
parse_uint-le top (c ∷ s) m e = scan-le top 0 (c ∷ s) m (omega arith) e

given_id : (s : Bytes) (o : Option ℕ) (id : ℕ) → id_or_error s o ≡ ok id → o ≡ some id
given_id s none id h = cc
given_id s (some x) id h = cc

given_filter :
    (f g : Filter) (o : Option FilterError) → filter_or_error f o ≡ ok g → (o ≡ none) × (f ≡ g)
given_filter f g none h = (refl, cc)
given_filter f g (some e) h = cc

parse_ids-le :
    (ss : List Bytes) (ids : List ℕ) → parse_ids ss ≡ ok ids → All (λ id. id ≤ max_id) ids
unfolding parse_ids
parse_ids-le [] ids h = let nothing : [] ≡ ids = cc in rw (← nothing) tt
parse_ids-le (s ∷ ss) ids h =
    let (id, first, k) = on_value-ok _ (id_or_error s (parse_uint max_id (trim_space s))) ids h in
    let (others, rest, made) = on_value-ok (λ ids. ok (id ∷ ids)) (parse_ids ss) ids k in
    let whole : id ∷ others ≡ ids = cc in
    rw (← whole)
      (parse_uint-le max_id (trim_space s) id (given_id s _ id first), parse_ids-le ss others rest)

-- A filter that the options make: it passes `Validate`, its IDs fit 32 bits, it has one wherever IDs
-- were asked for, and the percentage and the seed are those of the flags.
pub record IsFilter (o : FilterOptions) (f : Filter) : Type 0 where
  pub valid : validate f ≡ none
  pub ids_fit : All (λ id. id ≤ max_id) f.pdids
  pub ids_given : (not (is_empty o.pdids) || not (is_empty o.pdids_file)) ≡ true → f.pdids ≢ []
  pub same_percent : f.percent ≡ o.percent
  pub same_seed : f.seed ≡ o.seed

module _ (scan_file : Bytes → Option (List Bytes × Bool)) (parse_time : Bytes → Option Time) where
  check_ids_ok :
      (o : FilterOptions) (ids checked : List ℕ)
      → check_ids scan_file parse_time o ids ≡ ok checked
      → (ids ≡ checked)
        × ((not (is_empty o.pdids) || not (is_empty o.pdids_file)) ≡ true → checked ≢ [])
  unfolding check_ids
  check_ids_ok o ids checked h =
      elim (Bool-cases (not (is_empty o.pdids) || not (is_empty o.pdids_file))) [
        | inr e ↦ (cc (rw e at h), λ asked. absurd (cc (e, asked)))
        | inl e ↦ elim (Bool-cases (is_empty ids)) [
          | inl f ↦ absurd (cc (rw (e, f) at h))
          | inr f ↦
              let same : ids ≡ checked = cc (rw (e, f) at h) in
              (same, λ asked nothing. cc (ap is_empty (same ∙ nothing), f))
        ]
      ]

  check_percent_ok :
      (percent checked : Double)
      → check_percent scan_file parse_time percent ≡ ok checked
      → percent ≡ checked
  unfolding check_percent
  check_percent_ok percent checked h = ground arith

  made-IsFilter :
      (o : FilterOptions) (f : Filter) (texts : List Bytes) (ids checked : List ℕ)
      (percent : Double) (from to : Time)
      → parse_ids texts ≡ ok ids
      → check_ids scan_file parse_time o ids ≡ ok checked
      → check_percent scan_file parse_time o.percent ≡ ok percent
      → validated scan_file parse_time
          (record { pdids = checked; percent = percent; seed = o.seed; start = from; end = to })
        ≡ ok f
      → IsFilter o f
  unfolding validated
  made-IsFilter o f texts ids checked percent from to h2 h3 h4 k6 =
      let made : Filter = record {
        pdids = checked;
        percent = percent;
        seed = o.seed;
        start = from;
        end = to;
      } in
      let (valid, same) = given_filter made f (validate made) k6 in
      let (same_ids, given) = check_ids_ok o ids checked h3 in
      rw (← same) (record {
        valid = valid;
        ids_fit = rw (← same_ids) (parse_ids-le texts ids h2);
        ids_given = given;
        same_percent = sym (check_percent_ok o.percent percent h4);
        same_seed = refl;
      })

  -- If the options make a filter, then it is one that `Open` may be given.
  pub filter-IsFilter :
      (o : FilterOptions) (f : Filter) → filter scan_file parse_time o ≡ ok f → IsFilter o f
  unfolding filter
  filter-IsFilter o f h =
      let (texts, h1, k1) = on_value-ok _ (id_texts scan_file parse_time o) f h in
      let (ids, h2, k2) = on_value-ok _ (parse_ids texts) f k1 in
      let (checked, h3, k3) = on_value-ok _ (check_ids scan_file parse_time o ids) f k2 in
      let (percent, h4, k4) = on_value-ok _ (check_percent scan_file parse_time o.percent) f k3 in
      let (from, h5, k5) = on_value-ok _ (parse_time_flag scan_file parse_time o.start) f k4 in
      let (to, h6, k6) = on_value-ok _ (parse_time_flag scan_file parse_time o.end) f k5 in
      made-IsFilter o f texts ids checked percent from to h2 h3 h4 k6
