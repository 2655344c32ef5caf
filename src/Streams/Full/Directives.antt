-- ===== src/Streams/Full/Directives.antt =====
-- `pdByID`: which lists of directives `NewFullFIEStreamWhere` takes, and what a lookup finds.
use fie_importer.Prelude.{
  ℕ, ◌≡◌, refl, ◌↔◌, inl, inr, false, none, some, List, [], ◌∷◌, ◌==◌, Bool-cases, Option-cases,
  ==_iff, arith, All, Any, All-map,
}
use fie_importer.Streams.Full.{Directive, Directives, find_directive, directives_by_id}

-- No two directives have one ID.
abbrev pub AreDistinct : List Directive → Type 0
AreDistinct [] = Unit
AreDistinct (pd ∷ pds) =
    All (λ x. (x.directive_id == pd.directive_id) ≡ false) pds × AreDistinct pds

abbrev AreNew : Directives → List Directive → Type 0
AreNew m pds = All (λ x. find_directive x.directive_id m ≡ none) pds

taken :
    (pd : Directive) (m : Directives) (x : Directive)
    → find_directive x.directive_id ((pd.directive_id, pd) ∷ m) ≡ none
    → ((x.directive_id == pd.directive_id) ≡ false) × (find_directive x.directive_id m ≡ none)
unfolding find_directive
taken pd m x h = elim (Bool-cases (x.directive_id == pd.directive_id)) [
  | inl e ↦ absurd (cc (rw (find_directive, e) at h))
  | inr e ↦ (e, rw (find_directive, e) at h)
]

not_taken :
    (pd : Directive) (m : Directives) (x : Directive)
    → ((x.directive_id == pd.directive_id) ≡ false) × (find_directive x.directive_id m ≡ none)
    → find_directive x.directive_id ((pd.directive_id, pd) ∷ m) ≡ none
unfolding find_directive
not_taken pd m x (e, h) = rw e h

split-All :
    (P Q : Directive → Type 0) (xs : List Directive) → All (λ x. P x × Q x) xs → All P xs × All Q xs
split-All P Q [] h = (tt, tt)
split-All P Q (x ∷ xs) ((p, q), h) = let (ps, qs) = split-All P Q xs h in ((p, ps), (q, qs))

join-All :
    (P Q : Directive → Type 0) (xs : List Directive) → All P xs → All Q xs → All (λ x. P x × Q x) xs
join-All P Q [] hp hq = tt
join-All P Q (x ∷ xs) (p, hp) (q, hq) = ((p, q), join-All P Q xs hp hq)

distinct_if_taken :
    (pds : List Directive) (m n : Directives)
    → directives_by_id pds m ≡ some n
    → AreDistinct pds × AreNew m pds
unfolding directives_by_id
distinct_if_taken [] m n h = (tt, tt)
distinct_if_taken (pd ∷ pds) m n h = elim (Option-cases (find_directive pd.directive_id m)) [
  | inr (other, e) ↦ absurd (cc (rw (directives_by_id, e) at h))
  | inl e ↦
      let (distinct, new) =
        distinct_if_taken pds ((pd.directive_id, pd) ∷ m) n (rw (directives_by_id, e) at h) in
      let (others, rest) = split-All _ _ pds (All-map _ _ (λ x. taken pd m x) pds new) in
      ((others, distinct), (e, rest))
]

taken_if_distinct :
    (pds : List Directive) (m : Directives)
    → AreDistinct pds
    → AreNew m pds
    → (n : Directives) × (directives_by_id pds m ≡ some n)
unfolding directives_by_id
taken_if_distinct [] m d new = (m, refl)
taken_if_distinct (pd ∷ pds) m (others, d) (e, rest) =
    rw (directives_by_id, e)
      (taken_if_distinct pds ((pd.directive_id, pd) ∷ m) d
        (All-map _ _ (λ x both. not_taken pd m x both) pds (join-All _ _ pds others rest)))

no_directives : (pds : List Directive) → AreNew [] pds
unfolding find_directive
no_directives [] = tt
no_directives (pd ∷ pds) = (refl, no_directives pds)

-- `NewFullFIEStream` takes the directives exactly if no two of them have one ID.
pub directives_by_id_iff :
    (pds : List Directive)
    → ((m : Directives) × (directives_by_id pds [] ≡ some m)) ↔ AreDistinct pds
directives_by_id_iff pds = (
  λ found. (distinct_if_taken pds [] found.0 found.1).0,
  λ d. taken_if_distinct pds [] d (no_directives pds),
)

-- Each directive is one of the list, with its own ID.
abbrev IsOneOf : List Directive → ℕ → Directive → Type 0
IsOneOf pds id pd = Any (λ x. (x ≡ pd) × (x.directive_id ≡ id)) pds

All-IsOneOf : (pds : List Directive) → All (λ pd. IsOneOf pds pd.directive_id pd) pds
All-IsOneOf [] = tt
All-IsOneOf (pd ∷ pds) = (inl (refl, refl), All-map _ _ (λ x one. inr one) pds (All-IsOneOf pds))

module _ (P : ℕ → Directive → Type 0) where
  abbrev Entries : Directives → Type 0
  Entries m = All (λ (e : ℕ × Directive). P e.0 e.1) m

  find-Entries :
      (id : ℕ) (pd : Directive) (m : Directives)
      → Entries m
      → find_directive id m ≡ some pd
      → P id pd
  unfolding find_directive
  find-Entries id pd [] all h = absurd (cc)
  find-Entries id pd ((i, x) ∷ m) (px, all) h = elim (Bool-cases (id == i)) [
    | inl e ↦
        let same : x ≡ pd = cc (rw (find_directive, e) at h) in
        let ids = (==_iff id i).0 e in rw (← same, ids) px
    | inr e ↦ find-Entries id pd m all (rw (find_directive, e) at h)
  ]

  directives_by_id-Entries :
      (pds : List Directive) (m n : Directives)
      → All (λ pd. P pd.directive_id pd) pds
      → Entries m
      → directives_by_id pds m ≡ some n
      → Entries n
  unfolding directives_by_id
  directives_by_id-Entries [] m n all entries h = let same : m ≡ n = cc in rw (← same) entries
  directives_by_id-Entries (pd ∷ pds) m n (one, all) entries h =
      elim (Option-cases (find_directive pd.directive_id m)) [
        | inr (other, e) ↦ absurd (cc (rw (directives_by_id, e) at h))
        | inl e ↦
            directives_by_id-Entries pds ((pd.directive_id, pd) ∷ m) n all (one, entries)
              (rw (directives_by_id, e) at h)
      ]

-- What a lookup finds is the directive of that ID.
pub find_directive-IsOneOf :
    (pds : List Directive) (m : Directives) (id : ℕ) (pd : Directive)
    → directives_by_id pds [] ≡ some m
    → find_directive id m ≡ some pd
    → Any (λ x. (x ≡ pd) × (x.directive_id ≡ id)) pds
find_directive-IsOneOf pds m id pd built found =
    find-Entries (IsOneOf pds) id pd m
      (directives_by_id-Entries (IsOneOf pds) pds [] m (All-IsOneOf pds) tt built) found

not_found :
    (id i : ℕ) (pd : Directive) (m : Directives)
    → find_directive id ((i, pd) ∷ m) ≡ none
    → ((i == id) ≡ false) × (find_directive id m ≡ none)
unfolding find_directive
not_found id i pd m h = elim (Bool-cases (id == i)) [
  | inl e ↦ absurd (cc (rw (find_directive, e) at h))
  | inr e ↦ (ground arith, rw (find_directive, e) at h)
]

none_of :
    (pds : List Directive) (m n : Directives) (id : ℕ)
    → directives_by_id pds m ≡ some n
    → find_directive id n ≡ none
    → All (λ pd. (pd.directive_id == id) ≡ false) pds × (find_directive id m ≡ none)
unfolding directives_by_id
none_of [] m n id built h = let same : m ≡ n = cc in (tt, rw same h)
none_of (pd ∷ pds) m n id built h = elim (Option-cases (find_directive pd.directive_id m)) [
  | inr (other, e) ↦ absurd (cc (rw (directives_by_id, e) at built))
  | inl e ↦
      let (all, more) =
        none_of pds ((pd.directive_id, pd) ∷ m) n id (rw (directives_by_id, e) at built) h in
      let (this, before) = not_found id pd.directive_id pd m more in ((this, all), before)
]

-- A lookup that finds nothing: no directive has the ID.
pub find_directive-none :
    (pds : List Directive) (m : Directives) (id : ℕ)
    → directives_by_id pds [] ≡ some m
    → find_directive id m ≡ none
    → All (λ pd. (pd.directive_id == id) ≡ false) pds
find_directive-none pds m id built h = (none_of pds [] m id built h).0
