-- ===== src/Cmd/UploadFies/Options.antt =====
-- `filter`, `parseTime` and `readLines` of cmd/fie-importer/upload_fies.go. The lines of a file are the
-- argument `scan_file` (`none` if it cannot be opened, with the scanner's error behind the lines), and
-- `time.Parse` is `parse_time`. `strings.TrimSpace` is modelled on ASCII space.
pub mod Checked
use fie_importer.Prelude.{
  ℕ, ◌-◌, ◌^◌, Bool, false, not, ◌&&◌, ◌||◌, Option, none, some, List, [], ◌∷◌, ◌++◌, ◌==◌,
  if◌then◌else◌, is_empty, pos,
}
use fie_importer.Prelude.Bytes.{Bytes}
use fie_importer.Prelude.Time.{Time, is_zero}
use fie_importer.Pds.Reader.{trim_space}
use fie_importer.Text.Decimal.{parse_uint}
use fie_importer.Prelude.Double.{Double, is_nought, is_at_most, is_above}
use fie_importer.Fies.Filter.{Filter, FilterError, validate}
use fie_importer.Cmd.Error.{
  Error, Result, ok, err, on_value, cannot_read_file, no_pd_ids, bad_percent, bad_filter, bad_pd_id,
  bad_time,
}

pub record FilterOptions : Type 0 where
  pub pdids : List Bytes
  pub pdids_file : Bytes
  pub percent : Double
  pub seed : ℕ
  pub start : Bytes
  pub end : Bytes

-- `strings.HasPrefix(line, "#")`
abbrev is_comment : Bytes → Bool
is_comment [] = false
is_comment (c ∷ s) = c == b'#'

-- The loop of `readLines`
unfoldable pub kept_lines : List Bytes → List Bytes
kept_lines [] = []
kept_lines (l ∷ ls) =
    let line = trim_space l in
    let rest = kept_lines ls in
    if not (is_empty line) && not (is_comment line) then line ∷ rest else rest

abbrev pub max_id : ℕ
max_id = 2 ^ 32 - 1

-- "invalid PD ID %q"
abbrev pub id_or_error : Bytes → Option ℕ → Result ℕ
id_or_error s none = err (bad_pd_id s)
id_or_error s (some id) = ok id

-- The loop over `strconv.ParseUint(strings.TrimSpace(s), 10, 32)`
unfoldable pub parse_ids : List Bytes → Result (List ℕ)
parse_ids [] = ok []
parse_ids (s ∷ ss) =
    let rest = parse_ids ss in
    on_value (λ id. on_value (λ ids. ok (id ∷ ids)) rest)
      (id_or_error s (parse_uint max_id (trim_space s)))

abbrev pub filter_or_error : Filter → Option FilterError → Result Filter
filter_or_error f none = ok f
filter_or_error f (some e) = err bad_filter

module _ (scan_file : Bytes → Option (List Bytes × Bool)) (parse_time : Bytes → Option Time) where
  unfoldable pub read_lines : Bytes → Result (List Bytes)
  unfolding kept_lines
  read_lines path = elim (scan_file path) [
    | none ↦ err cannot_read_file
    | some (lines, failure) ↦ if failure then err cannot_read_file else ok (kept_lines lines)
  ]

  -- `parseTime`: the zero time for no text
  unfoldable pub parse_time_flag : Bytes → Result Time
  parse_time_flag [] = ok (pos 0)
  parse_time_flag (c ∷ s) = elim (parse_time (c ∷ s)) [
    | none ↦ err (bad_time (c ∷ s))
    | some t ↦ ok t
  ]

  -- The IDs of the flag and of the file
  unfoldable pub id_texts : FilterOptions → Result (List Bytes)
  unfolding read_lines
  id_texts o =
      if is_empty o.pdids_file
      then ok o.pdids
      else on_value (λ lines. ok (o.pdids ++ lines)) (read_lines o.pdids_file)

  -- `(len(o.pdids) > 0 || o.pdidsFile != "") && len(f.PDIDs) == 0`
  unfoldable pub check_ids : FilterOptions → List ℕ → Result (List ℕ)
  check_ids o ids =
      if (not (is_empty o.pdids) || not (is_empty o.pdids_file)) && is_empty ids
      then err no_pd_ids
      else ok ids

  unfoldable pub check_percent : Double → Result Double
  check_percent percent =
      if not (is_nought percent) && (is_at_most percent 0 || is_above percent 100)
      then err bad_percent
      else ok percent

  -- `return f, f.Validate()`
  unfoldable pub validated : Filter → Result Filter
  validated f = filter_or_error f (validate f)

  unfoldable pub filter : FilterOptions → Result Filter
  unfolding id_texts parse_ids check_ids check_percent parse_time_flag validated
  filter o =
      on_value
        (λ texts.
          on_value
            (λ ids.
              on_value
                (λ checked.
                  on_value
                    (λ percent.
                      on_value
                        (λ from.
                          on_value
                            (λ to. validated (record {
                              pdids = checked;
                              percent = percent;
                              seed = o.seed;
                              start = from;
                              end = to;
                            }))
                            (parse_time_flag o.end))
                        (parse_time_flag o.start))
                    (check_percent o.percent))
                (check_ids o ids))
            (parse_ids texts))
        (id_texts o)
