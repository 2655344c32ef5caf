-- ===== src/Cmd/PdStats/Keys.antt =====
-- The keys of a counting map are the distinct keys that were counted.
use fie_importer.Prelude.{
  ℕ, ◌+◌, ◌≡◌, refl, sym, ◌∙◌, inl, inr, Bool, true, false, not, ◌&&◌, ◌||◌, List, [], ◌∷◌, arith,
  if◌then◌else◌, Bool-cases, length, distinct_by, keep_if, keep_if_ext, keep_if-keep_if,
}
use fie_importer.Cmd.PdStats.{bump}

module _ {K : Type 0} (eq : K → K → Bool) where
  abbrev pub bump_all : List K → List (K × ℕ) → List (K × ℕ)
  bump_all [] m = m
  bump_all (k ∷ ks) m = bump_all ks (bump eq k m)

  abbrev has : List (K × ℕ) → K → Bool
  has [] k = false
  has ((x, n) ∷ m) k = eq k x || has m k

  module _ (refl_eq : (k : K) → eq k k ≡ true) (sound : (k x : K) → eq k x ≡ true → k ≡ x) where
    eq_comm : (k x : K) → eq k x ≡ eq x k
    eq_comm k x = elim (Bool-cases (eq k x)) [
      | inl e ↦ let same = sound k x e in rw same refl
      | inr e ↦ elim (Bool-cases (eq x k)) [
        | inl f ↦ let same = sound x k f in rw same refl
        | inr f ↦ e ∙ sym f
      ]
    ]

    length-bump :
        (k : K) (m : List (K × ℕ)) → length (bump eq k m) ≡ length m + (if has m k then 0 else 1)
    unfolding bump
    length-bump k [] = refl
    length-bump k ((x, n) ∷ m) = elim (Bool-cases (eq k x)) [
      | inl e ↦ rw e (omega arith)
      | inr e ↦ rw e (omega (arith, length-bump k m))
    ]

    has-bump : (k : K) (m : List (K × ℕ)) (x : K) → has (bump eq k m) x ≡ (has m x || eq x k)
    unfolding bump
    has-bump k [] x = ground arith
    has-bump k ((y, n) ∷ m) x = elim (Bool-cases (eq k y)) [
      | inl e ↦ let same = sound k y e in rw e (rw same (ground arith))
      | inr e ↦ let rest = has-bump k m x in rw e (rw rest (ground arith))
    ]

    -- The keys that are new behind `k`
    kept_new :
        (k : K) (m : List (K × ℕ)) (ks : List K)
        → keep_if (λ x. not (has (bump eq k m) x)) ks
          ≡ keep_if (λ x. not (eq k x) && not (has m x)) ks
    kept_new k m ks =
        keep_if_ext _ _
          (λ x.
            let at = has-bump k m x in let swapped = eq_comm k x in rw (at, swapped) (ground arith))
          ks

    pub length-bump_all :
        (ks : List K) (m : List (K × ℕ))
        → length (bump_all ks m)
          ≡ length m + length (keep_if (λ x. not (has m x)) (distinct_by eq ks))
    length-bump_all [] m = omega arith
    length-bump_all (k ∷ ks) m =
        let rest = length-bump_all ks (bump eq k m) in
        let size = length-bump k m in
        let others =
          kept_new k m (distinct_by eq ks)
          ∙ sym (keep_if-keep_if (λ x. not (has m x)) (λ x. not (eq k x)) (distinct_by eq ks)) in
        rest
        ∙ rw others (elim (Bool-cases (has m k)) [
          | inl e ↦ rw (keep_if, e) (omega (arith, rw e at size))
          | inr e ↦ rw (keep_if, e) (omega (arith, rw e at size))
        ])
