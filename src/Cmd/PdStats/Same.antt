-- ===== src/Cmd/PdStats/Same.antt =====
-- A dry run of upload-pds against the summary that an upload prints.
use fie_importer.Prelude.{
  ℕ, suc, ◌+◌, ◌≤◌, ◌≡◌, refl, sym, ap, ◌∙◌, ◌⊎◌, inl, inr, false, not, Option, List, [], ◌∷◌, map,
  arith, ◌==◌, Bool-cases, length, how_many, distinct_by, keep_if,
}
use mathlib.Core.Path.{fun_ext}
use fie_importer.Prelude.Bytes.{Bytes}
use fie_importer.Net.{Addr, unmap, is_4, bytes_eq, bytes_eq_refl, bytes_eq→eq}
use fie_importer.Pds.Parse.{Line, Row, ok, parse}
use fie_importer.Pds.Parse.Accepts.{parse_lem}
use fie_importer.Pds.Reader.{Reader, end_of_file, read_all}
use fie_importer.Pds.Reader.Ids.{ParsesTo, texts_of, read_all_iff}
use fie_importer.Clickhouse.Summary.{min_of, max_of, PdSummary, summarize_pds}
use fie_importer.Cmd.PdStats.{
  count_of, same_number, PdStats, no_stats, started, add, add_all, summary, dry_run_pds,
}
use fie_importer.Cmd.PdStats.Counts.{dry_run_pds-Counts}
use fie_importer.Cmd.PdStats.Keys.{bump_all, length-bump_all}

-- The rows of a table are summarized to the numbers of the dry run.
pub record IsSame (t : PdStats) (s : PdSummary) : Type 0 where
  pub rows : s.rows ≡ t.rows
  pub ipv4 : s.ipv4 ≡ t.ipv4
  pub ipv6 : s.ipv6 ≡ t.ipv6
  pub icmp : s.icmp ≡ count_of same_number 1 t.protocols
  pub udp : s.udp ≡ count_of same_number 17 t.protocols
  pub icmpv6 : s.icmpv6 ≡ count_of same_number 58 t.protocols
  pub agents : s.agents ≡ length t.agents
  pub first_id : s.first_id ≡ t.first_id
  pub last_id : s.last_id ≡ t.last_id

abbrev last_of : List Row → ℕ → ℕ
last_of [] n = n
last_of (r ∷ rs) n = last_of rs r.pdid

-- What the rows behind the first change
record Added (s : PdStats) (rs : List Row) (t : PdStats) : Type 0 where
  all_agents : t.agents ≡ bump_all bytes_eq (map (λ r. r.agent_id) rs) s.agents
  first_kept : t.first_id ≡ s.first_id
  last_moved : t.last_id ≡ last_of rs s.last_id

add_all-Added : (s : PdStats) (rs : List Row) (n : ℕ) → s.rows ≡ suc n → Added s rs (add_all s rs)
unfolding add_all add started
add_all-Added s [] n h = record { all_agents = refl; first_kept = refl; last_moved = refl }
add_all-Added s (r ∷ rs) n h =
    let some_rows : (s.rows == 0) ≡ false = rw h (ground arith) in
    let next = add_all-Added (add s r) rs (suc n) (rw some_rows (rw h (omega arith))) in
    record {
      all_agents = next.all_agents ∙ rw some_rows refl;
      first_kept = next.first_kept ∙ rw some_rows refl;
      last_moved = next.last_moved;
    }

first-Added : (r : Row) (rs : List Row) → Added (add no_stats r) rs (add_all no_stats (r ∷ rs))
unfolding add_all add started
first-Added r rs = add_all-Added (add no_stats r) rs 0 refl

keep_all : {A : Type 0} (xs : List A) → keep_if (λ x. not false) xs ≡ xs
keep_all [] = refl
keep_all (x ∷ xs) = ap (λ l. x ∷ l) (keep_all xs)

from_zero : (n k : ℕ) → n ≡ 0 + k → k ≡ n
from_zero n k h = omega arith

nothing_read : (t : PdStats) → dry_run_pds ([], end_of_file) ≡ summary t → ⊥
unfolding dry_run_pds add_all
nothing_read t e = cc

module _ (unmarshal : Bytes → Option Line) (parse_addr : Bytes → Option Addr) where
  row_of_parse :
      (t : Bytes) (id : ℕ) (r : Row)
      → parse unmarshal parse_addr t id ≡ ok r
      → (r.pdid ≡ id) × ((r.ip_version ≡ 4) ⊎ (r.ip_version ≡ 6))
  row_of_parse t id r h =
      let accepted = (parse_lem unmarshal parse_addr t id r).0 h in
      let made = accepted.makes in
      rw made (
        refl,
        elim (Bool-cases (is_4 (unmap accepted.addr))) [
          | inl e ↦ inl (rw e refl)
          | inr e ↦ inr (rw e refl)
        ],
      )

  versions_lem :
      (id : ℕ) (ts : List Bytes) (rs : List Row)
      → ParsesTo unmarshal parse_addr id ts rs
      → how_many (λ r. r.ip_version == 4) rs + how_many (λ r. r.ip_version == 6) rs ≡ length rs
  versions_lem id [] [] h = refl
  versions_lem id [] (r ∷ rs) h = absurd h
  versions_lem id (t ∷ ts) [] h = absurd h
  versions_lem id (t ∷ ts) (r ∷ rs) (p, ne, h) =
      let rest = versions_lem (id + 1) ts rs h in
      elim ((row_of_parse t id r p).1) [
        | inl e ↦ rw e (omega (arith, rest))
        | inr e ↦ rw e (omega (arith, rest))
      ]

  ids_lem :
      (id : ℕ) (t : Bytes) (ts : List Bytes) (r : Row) (rs : List Row)
      → ParsesTo unmarshal parse_addr id (t ∷ ts) (r ∷ rs)
      → (min_of (map (λ x. x.pdid) (r ∷ rs)) ≡ id)
        × (max_of (map (λ x. x.pdid) (r ∷ rs)) ≡ last_of rs r.pdid)
        × (id ≤ last_of rs r.pdid)
  ids_lem id t [] r [] (p, ne, h) =
      let (same, v) = row_of_parse t id r p in rw same (refl, omega arith, omega arith)
  ids_lem id t [] r (x ∷ rs) (p, ne, h) = absurd h
  ids_lem id t (u ∷ ts) r [] (p, ne, h) = absurd h
  ids_lem id t (u ∷ ts) r (x ∷ rs) (p, ne, h) =
      let (same, v) = row_of_parse t id r p in
      let (lowest, highest, above) = ids_lem (id + 1) u ts x rs h in
      rw (same, lowest, highest) (omega (arith, above), omega (arith, above), omega (arith, above))

  whole_run :
      (rs : List Row) (t : PdStats)
      → dry_run_pds (rs, end_of_file) ≡ summary t
      → add_all no_stats rs ≡ t
  unfolding dry_run_pds
  whole_run rs t e = elim (Bool-cases ((add_all no_stats rs).rows == 0)) [
    | inl nothing ↦ absurd (cc (rw nothing at e))
    | inr some_rows ↦ cc (rw some_rows at e)
  ]

  by_protocol :
      (k : ℕ) (rs : List Row)
      → how_many (λ r. r.protocol == k) rs ≡ how_many (λ r. k == r.protocol) rs
  by_protocol k rs = ap (λ test. how_many test rs) (fun_ext (λ r. ground arith))

  agents_lem :
      (r : Row) (rs : List Row) (t : PdStats)
      → Added (add no_stats r) rs t
      → length (distinct_by bytes_eq (map (λ x. x.agent_id) (r ∷ rs))) ≡ length t.agents
  unfolding add started
  agents_lem r rs t added =
      let ids : List Bytes = map (λ x. x.agent_id) (r ∷ rs) in
      let all : t.agents ≡ bump_all bytes_eq ids [] = added.all_agents in
      let none_before : keep_if (λ x. not false) (distinct_by bytes_eq ids)
          ≡ distinct_by bytes_eq ids =
        keep_all (distinct_by bytes_eq ids) in
      from_zero _ _ (
        ap length all
        ∙ length-bump_all bytes_eq bytes_eq_refl bytes_eq→eq ids []
        ∙ ap (λ l. 0 + length l) none_before)

  ParsesTo-IsSame :
      (id : ℕ) (ts : List Bytes) (rs : List Row) (t : PdStats)
      → ParsesTo unmarshal parse_addr id ts rs
      → dry_run_pds (rs, end_of_file) ≡ summary t
      → IsSame t (summarize_pds rs)
  unfolding summarize_pds add started count_of
  ParsesTo-IsSame id ts [] t h e = absurd (nothing_read t e)
  ParsesTo-IsSame id [] (r ∷ rs) t h e = absurd h
  ParsesTo-IsSame id (u ∷ ts) (r ∷ rs) t h e =
      let counts = dry_run_pds-Counts (r ∷ rs) t e in
      let added : Added (add no_stats r) rs t = rw (whole_run (r ∷ rs) t e) at (first-Added r rs) in
      let (lowest, highest, above) = ids_lem id u ts r rs h in
      let (p, ne, rest) = h in
      record {
        rows = from_zero _ _ counts.all;
        ipv4 = from_zero _ _ counts.version_4;
        ipv6 =
            omega (arith, counts.versions, counts.version_4, versions_lem id (u ∷ ts) (r ∷ rs) h);
        icmp = by_protocol 1 (r ∷ rs) ∙ from_zero _ _ (counts.by_protocol 1);
        udp = by_protocol 17 (r ∷ rs) ∙ from_zero _ _ (counts.by_protocol 17);
        icmpv6 = by_protocol 58 (r ∷ rs) ∙ from_zero _ _ (counts.by_protocol 58);
        agents = agents_lem r rs t added;
        first_id = lowest ∙ sym ((row_of_parse u id r p).0) ∙ sym added.first_kept;
        last_id = highest ∙ sym added.last_moved;
      }

  -- If a dry run of upload-pds reads its file to the end, then the summary that ClickHouse makes of a table with
  -- the rows of the file has the numbers that the dry run prints: rows, versions, protocols, distinct agents,
  -- and the first and the last ID.
  pub dry_run_pds-IsSame :
      (s : Reader) (rs : List Row) (t : PdStats)
      → read_all unmarshal parse_addr (suc (length s.lines)) s ≡ (rs, end_of_file)
      → dry_run_pds (rs, end_of_file) ≡ summary t
      → IsSame t (summarize_pds rs)
  dry_run_pds-IsSame s rs t read e =
      ParsesTo-IsSame s.next_id (texts_of s.lines) rs t
        ((read_all_iff unmarshal parse_addr s rs).0 read).0 e
