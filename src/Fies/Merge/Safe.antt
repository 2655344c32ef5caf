-- ===== src/Fies/Merge/Safe.antt =====
-- What a merge does to the files on the disk, failing or not.
use fie_importer.Prelude.{
  ℕ, ◌≡◌, refl, ap, ◌∙◌, ◌≢◌, ◌⊎◌, inl, inr, true, false, Option, none, some, List, arith, ◌==◌,
  Bool-cases, length, length-append,
}
use fie_importer.Prelude.Bytes.{Bytes, codes}
use fie_importer.Fies.File.{File}
use fie_importer.Fies.Window.Totals.{sum_rows}
use fie_importer.Fies.Merge.{
  MergeOptions, MergeError, published, Merged, merged, failed, Disk, Stat, present, missing,
  unreadable, temporary, check_merge, publish, compare_rows, write, unless_failed, merge,
}

-- What the operating system and DuckDB document, while no other process uses the files. `rows` is the
-- number of rows of a file.
pub record IsDisk {Content : Type 0} (d : Disk Content) (rows : Content → ℕ) : Type 0 where
  pub remove_others :
      (p : Bytes) (a : d.State) (other : Bytes)
      → other ≢ p
      → d.content (d.remove p a) other ≡ d.content a other
  pub copy_others :
      (p : Bytes) (a : d.State) (other : Bytes)
      → other ≢ p
      → d.content (d.copy p a).1 other ≡ d.content a other
  pub num_rows_right :
      (p : Bytes) (a : d.State) (n : ℕ)
      → d.num_rows p a ≡ some n
      → (c : Content) × (d.content a p ≡ some c) × (rows c ≡ n)
  pub rename_others :
      (from to : Bytes) (a : d.State) (other : Bytes)
      → other ≢ from
      → other ≢ to
      → d.content (d.rename from to a).1 other ≡ d.content a other
  pub rename_ok :
      (from to : Bytes) (a : d.State)
      → (d.rename from to a).0 ≡ true
      → d.content (d.rename from to a).1 to ≡ d.content a from
  pub rename_failed :
      (from to : Bytes) (a : d.State)
      → (d.rename from to a).0 ≡ false
      → d.content (d.rename from to a).1 to ≡ d.content a to

append_longer : (s : Bytes) → s ≢ temporary s
append_longer s e = absurd (omega (arith, ap length e, length-append s (codes ".tmp")))

module _ {Content : Type 0} (d : Disk Content) (rows : Content → ℕ) (laws : IsDisk d rows)
    (output : Bytes) where
  open d use {State, content}

  -- The output holds a whole merge of that many rows.
  abbrev Holds : State → ℕ → Type 0
  Holds b total = (c : Content) × (content b output ≡ some c) × (rows c ≡ total)

  -- What a merge may do: no other file but the output and the temporary one changes, and the output is
  -- as it was, or it is whole; after a success it is.
  pub record IsSafe (total : ℕ) (a : State) (r : Merged × State) : Type 0 where
    pub others :
        (other : Bytes)
        → other ≢ output
        → other ≢ temporary output
        → content r.1 other ≡ content a other
    pub kept_or_whole : (content r.1 output ≡ content a output) ⊎ Holds r.1 total
    pub success : (n files : ℕ) → r.0 ≡ merged n files → Holds r.1 total × (n ≡ total)

  unchanged :
      (total : ℕ) (a b : State) (e : MergeError)
      → ((other : Bytes) → other ≢ temporary output → content b other ≡ content a other)
      → IsSafe total a (failed e, b)
  unchanged total a b e same = record {
    others = λ other ne ne_tmp. same other ne_tmp;
    kept_or_whole = inl (same output (append_longer output));
    success = λ n files h. cc;
  }

  published_merged :
      (x : Stat) (total files n m : ℕ) → published x total files ≡ merged n m → n ≡ total
  published_merged present total files n m h = cc
  published_merged missing total files n m h = cc
  published_merged unreadable total files n m h = cc

  -- Only the temporary file differs.
  abbrev SameOthers : State → State → Type 0
  SameOthers a b = (other : Bytes) → other ≢ temporary output → content b other ≡ content a other

  publish-IsSafe :
      (total files : ℕ) (a b : State)
      → SameOthers a b
      → (c : Content) × (content b (temporary output) ≡ some c) × (rows c ≡ total)
      → IsSafe total a (publish d output total files b)
  unfolding publish
  publish-IsSafe total files a b same (c, written, right) =
      elim (Bool-cases (d.rename (temporary output) output b).0) [
        | inr stays ↦ rw stays (record {
          others = λ other ne ne_tmp.
              laws.rename_others (temporary output) output b other ne_tmp ne ∙ same other ne_tmp;
          kept_or_whole = inl (
              laws.rename_failed (temporary output) output b stays
              ∙ same output (append_longer output));
          success = λ n m h. cc;
        })
        | inl yes_renamed ↦
            let holds = laws.rename_ok (temporary output) output b yes_renamed ∙ written in
            rw yes_renamed (record {
              others = λ other ne ne_tmp.
                  laws.rename_others (temporary output) output b other ne_tmp ne
                  ∙ same other ne_tmp;
              kept_or_whole = inr (c, holds, right);
              success = λ n m h. ((c, holds, right), published_merged _ total files n m h);
            })
      ]

  removed_same : (a b : State) → SameOthers a b → SameOthers a (d.remove (temporary output) b)
  removed_same a b same other ne = laws.remove_others (temporary output) b other ne ∙ same other ne

  compare-IsSafe :
      (total files : ℕ) (a b : State) (got : Option ℕ)
      → SameOthers a b
      → ((n : ℕ)
          → got ≡ some n
          → (c : Content) × (content b (temporary output) ≡ some c) × (rows c ≡ n))
      → IsSafe total a (compare_rows d got output total files b)
  unfolding compare_rows
  compare-IsSafe total files a b none same read = unchanged total a _ _ (removed_same a b same)
  compare-IsSafe total files a b (some n) same read = elim (Bool-cases (n == total)) [
    | inr e ↦ rw e (unchanged total a _ _ (removed_same a b same))
    | inl e ↦
        let (c, written, right) = read n refl in
        let whole : n ≡ total = ground arith in
        rw e (publish-IsSafe total files a b same (c, written, right ∙ whole))
  ]

  write-IsSafe : (total files : ℕ) (a : State) → IsSafe total a (write d output total files a)
  unfolding write
  write-IsSafe total files a =
      let b = (d.copy (temporary output) (d.remove (temporary output) a)).1 in
      let same : SameOthers a b = λ other ne.
        laws.copy_others (temporary output) (d.remove (temporary output) a) other ne
        ∙ laws.remove_others (temporary output) a other ne in
      elim (Bool-cases (d.copy (temporary output) (d.remove (temporary output) a)).0) [
        | inr e ↦ rw e (unchanged total a _ _ (removed_same a b same))
        | inl e ↦ rw e (
            compare-IsSafe total files a b (d.num_rows (temporary output) b) same
              (laws.num_rows_right (temporary output) b))
      ]

  unless-IsSafe :
      (total : ℕ) (a : State) (check : Option MergeError) (r : Merged × State)
      → IsSafe total a r
      → IsSafe total a (unless_failed d check r a)
  unless-IsSafe total a none r safe = safe
  unless-IsSafe total a (some e) r safe = unchanged total a a e (λ other ne. refl)

-- Whatever `Merge` returns: no file but the output and the temporary one changes; the output is as it
-- was, or it holds as many rows as all inputs together; and after a success it does, and that is the
-- number that is reported.
pub merge-IsSafe :
    {Content : Type 0} (d : Disk Content) (rows : Content → ℕ) (laws : IsDisk d rows)
    (files : List File) (o : MergeOptions) (a : d.State)
    → IsSafe d rows laws o.output (sum_rows files) a (merge d files o a)
unfolding merge
merge-IsSafe d rows laws files o a =
    unless-IsSafe d rows laws o.output (sum_rows files) a (check_merge d files o a)
      (write d o.output (sum_rows files) (length files) a)
      (write-IsSafe d rows laws o.output (sum_rows files) (length files) a)
