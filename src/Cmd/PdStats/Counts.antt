-- ===== src/Cmd/PdStats/Counts.antt =====
-- What the numbers of a dry run count.
use fie_importer.Prelude.{
  how_many, ℕ, ◌+◌, ◌≡◌, refl, sym, ap, inl, inr, Bool, true, List, [], ◌∷◌, arith, ◌==◌,
  if◌then◌else◌, Bool-cases, length,
}
use fie_importer.Prelude.Bytes.{Bytes}
use fie_importer.Net.{bytes_eq, bytes_eq_refl}
use fie_importer.Pds.Parse.{Row}
use fie_importer.Pds.Reader.{end_of_file}
use fie_importer.Cmd.PdStats.{
  bump, count_of, same_number, PdStats, no_stats, started, add, add_all, summary, dry_run_pds,
}

abbrev one_if : Bool → ℕ
one_if b = if b then 1 else 0

module _ {K : Type 0} (eq : K → K → Bool) (refl_eq : (k : K) → eq k k ≡ true)
    (sound : (k x : K) → eq k x ≡ true → k ≡ x) where
  count_of-bump :
      (k x : K) (m : List (K × ℕ)) → count_of eq x (bump eq k m) ≡ one_if (eq x k) + count_of eq x m
  unfolding count_of bump
  count_of-bump k x [] = ground arith
  count_of-bump k x ((y, n) ∷ m) = elim (Bool-cases (eq k y)) [
    | inl e ↦ let same = sound k y e in rw e (rw same (ground arith))
    | inr e ↦ elim (Bool-cases (eq x y)) [
      | inl f ↦ elim (Bool-cases (eq x k)) [
        | inl g ↦ absurd (cc (sound x k g, e, f))
        | inr g ↦ rw (e, f, g) (omega arith)
      ]
      | inr f ↦ rw (e, f) (count_of-bump k x m)
    ]
  ]

bytes_eq_sound : (k x : Bytes) → bytes_eq k x ≡ true → k ≡ x
bytes_eq_sound [] [] h = refl
bytes_eq_sound [] (d ∷ t) h = cc
bytes_eq_sound (c ∷ s) [] h = cc
bytes_eq_sound (c ∷ s) (d ∷ t) h = ground (arith, bytes_eq_sound s t)

-- What the rows add to the numbers.
pub record Counts (s : PdStats) (rs : List Row) (t : PdStats) : Type 0 where
  pub all : t.rows ≡ s.rows + length rs
  pub versions : t.ipv4 + t.ipv6 ≡ s.ipv4 + s.ipv6 + length rs
  pub version_4 : t.ipv4 ≡ s.ipv4 + how_many (λ r. r.ip_version == 4) rs
  pub by_agent :
      (k : Bytes)
      → count_of bytes_eq k t.agents
        ≡ count_of bytes_eq k s.agents + how_many (λ r. bytes_eq k r.agent_id) rs
  pub by_protocol :
      (k : ℕ)
      → count_of same_number k t.protocols
        ≡ count_of same_number k s.protocols + how_many (λ r. k == r.protocol) rs

-- Numbers to which rows can be added: the maps are empty before the first row.
abbrev IsFresh : PdStats → Type 0
IsFresh s = s.rows ≡ 0 → (s.agents ≡ []) × (s.protocols ≡ [])

started_agents : (s : PdStats) (r : Row) → IsFresh s → (started s r).agents ≡ s.agents
unfolding started
started_agents s r fresh = elim (Bool-cases (s.rows == 0)) [
  | inr e ↦ rw e refl
  | inl e ↦ let none_yet : s.rows ≡ 0 = ground arith in rw e (sym (fresh none_yet).0)
]

started_protocols : (s : PdStats) (r : Row) → IsFresh s → (started s r).protocols ≡ s.protocols
unfolding started
started_protocols s r fresh = elim (Bool-cases (s.rows == 0)) [
  | inr e ↦ rw e refl
  | inl e ↦ let none_yet : s.rows ≡ 0 = ground arith in rw e (sym (fresh none_yet).1)
]

started_numbers :
    (s : PdStats) (r : Row)
    → ((started s r).rows ≡ s.rows) × ((started s r).ipv4 ≡ s.ipv4) × ((started s r).ipv6 ≡ s.ipv6)
unfolding started
started_numbers s r = elim (Bool-cases (s.rows == 0)) [
  | inr e ↦ rw e (refl, refl, refl)
  | inl e ↦ rw e (refl, refl, refl)
]

add_all-Counts : (s : PdStats) (rs : List Row) → IsFresh s → Counts s rs (add_all s rs)
unfolding add_all add
add_all-Counts s [] fresh = record {
  all = omega arith;
  versions = omega arith;
  version_4 = omega arith;
  by_agent = λ k. omega arith;
  by_protocol = λ k. omega arith;
}
add_all-Counts s (r ∷ rs) fresh =
    let (same_rows, same_4, same_6) = started_numbers s r in
    let next = add_all-Counts (add s r) rs (λ h. absurd (omega (arith, h, same_rows))) in
    record {
      all = omega (arith, next.all, same_rows);
      versions = ground (arith, next.versions, same_4, same_6);
      version_4 = ground (arith, next.version_4, same_4);
      by_agent = λ k. omega (
        arith,
        next.by_agent k,
        count_of-bump bytes_eq bytes_eq_refl bytes_eq_sound r.agent_id k (started s r).agents,
        ap (count_of bytes_eq k) (started_agents s r fresh),
      );
      by_protocol = λ k. omega (
        arith,
        next.by_protocol k,
        count_of-bump same_number (λ n. ground arith) (λ n m h. ground arith) r.protocol k
            (started s r).protocols,
        ap (count_of same_number k) (started_protocols s r fresh),
      );
    }

-- A dry run that reads its file to the end prints the true numbers of the rows: all of them, those of
-- IPv4 and the rest, and those of each agent and each protocol.
pub dry_run_pds-Counts :
    (rs : List Row) (t : PdStats) → dry_run_pds (rs, end_of_file) ≡ summary t → Counts no_stats rs t
unfolding dry_run_pds
dry_run_pds-Counts rs t h = elim (Bool-cases ((add_all no_stats rs).rows == 0)) [
  | inl e ↦ absurd (cc (rw e at h))
  | inr e ↦
      let same : add_all no_stats rs ≡ t = cc (rw e at h) in
      rw (← same) (add_all-Counts no_stats rs (λ none_yet. (refl, refl)))
]
