-- ===== src/Prelude/Sort.antt =====
-- Go's `slices.SortFunc`, `slices.Sorted` and `slices.Compact`. The order of equal elements is that
-- of insertion; the source promises none.
pub mod Kept
use mathlib.Core.List.{Perm}
use mathlib.Core.List.Perm
use fie_importer.Prelude.{
  ◌≡◌, inl, inr, Bool, true, false, List, [], ◌∷◌, All, Bool-cases, ℕ, ◌==◌, if◌then◌else◌, ◌⊎◌,
  Any, keep_if, All-keep_if,
}

module _ {ℓ} {A : Type ℓ} (le : A → A → Bool) where
  unfoldable pub insert : A → List A → List A
  insert x [] = x ∷ []
  insert x (y ∷ ys) = if le x y then x ∷ y ∷ ys else y ∷ insert x ys

  unfoldable pub sort : List A → List A
  unfolding insert
  sort [] = []
  sort (x ∷ xs) = insert x (sort xs)

  -- Each element is in order with every later one.
  abbrev pub IsSorted : List A → Type 0
  IsSorted [] = Unit
  IsSorted (x ∷ xs) = All (λ y. le x y ≡ true) xs × IsSorted xs

  insert-perm : (x : A) (xs : List A) → Perm (insert x xs) (x ∷ xs)
  unfolding insert
  insert-perm x [] = Perm.refl (x ∷ [])
  insert-perm x (y ∷ ys) = elim (Bool-cases (le x y)) [
    | inl e ↦ rw e (Perm.refl _)
    | inr e ↦ rw e (Perm.trans (Perm.cons y (insert-perm x ys)) (Perm.swap x y ys))
  ]

  pub sort-perm : (xs : List A) → Perm (sort xs) xs
  unfolding sort
  sort-perm [] = Perm.refl []
  sort-perm (x ∷ xs) = Perm.trans (insert-perm x (sort xs)) (Perm.cons x (sort-perm xs))

module _ {ℓ} {A : Type ℓ} (le : A → A → Bool) (total : (x y : A) → le x y ≡ false → le y x ≡ true)
    (trans : (x y z : A) → le x y ≡ true → le y z ≡ true → le x z ≡ true) where
  below :
      (x y : A) (ys : List A)
      → le x y ≡ true
      → All (λ z. le y z ≡ true) ys
      → All (λ z. le x z ≡ true) ys
  below x y [] h hs = tt
  below x y (z ∷ zs) h (hz, hs) = (trans x y z h hz, below x y zs h hs)

  insert-All : (P : A → Type 0) (x : A) (xs : List A) → P x → All P xs → All P (insert le x xs)
  unfolding insert
  insert-All P x [] p h = (p, tt)
  insert-All P x (y ∷ ys) p (q, h) = elim (Bool-cases (le x y)) [
    | inl e ↦ rw e (p, (q, h))
    | inr e ↦ rw e (q, insert-All P x ys p h)
  ]

  insert-IsSorted : (x : A) (xs : List A) → IsSorted le xs → IsSorted le (insert le x xs)
  unfolding insert
  insert-IsSorted x [] h = (tt, tt)
  insert-IsSorted x (y ∷ ys) (hy, h) = elim (Bool-cases (le x y)) [
    | inl e ↦ rw e ((e, below x y ys e hy), (hy, h))
    | inr e ↦ rw e (insert-All _ x ys (total x y e) hy, insert-IsSorted x ys h)
  ]

  pub sort-IsSorted : (xs : List A) → IsSorted le (sort le xs)
  unfolding sort
  sort-IsSorted [] = tt
  sort-IsSorted (x ∷ xs) = insert-IsSorted x (sort le xs) (sort-IsSorted xs)

-- `slices.Compact` keeps the first of each run of equal numbers.
unfoldable pub compact : List ℕ → List ℕ
compact [] = []
compact (x ∷ []) = x ∷ []
compact (x ∷ y ∷ xs) = let rest = compact (y ∷ xs) in if x == y then rest else x ∷ rest

-- What holds of the elements of a sorted list holds of those of the list.
module _ {ℓ} {A : Type ℓ} (le : A → A → Bool) (P : A → Type 0) where
  All-insert : (x : A) (xs : List A) → All P (insert le x xs) → P x × All P xs
  unfolding insert
  All-insert x [] h = h
  All-insert x (y ∷ ys) h = elim (Bool-cases (le x y)) [
    | inl e ↦ let all : P x × (P y × All P ys) = rw e at h in all
    | inr e ↦
        let all : P y × All P (insert le x ys) = rw e at h in
        let (px, ps) = All-insert x ys all.1 in (px, (all.0, ps))
  ]

  insert-All_of : (x : A) (xs : List A) → P x → All P xs → All P (insert le x xs)
  unfolding insert
  insert-All_of x [] px h = (px, tt)
  insert-All_of x (y ∷ ys) px (py, h) = elim (Bool-cases (le x y)) [
    | inl e ↦ rw e (px, (py, h))
    | inr e ↦ rw e (py, insert-All_of x ys px h)
  ]

  pub All-sort : (xs : List A) → All P xs → All P (sort le xs)
  unfolding sort
  All-sort [] h = tt
  All-sort (x ∷ xs) (px, h) = insert-All_of x (sort le xs) px (All-sort xs h)

  pub All-of-sort : (xs : List A) → All P (sort le xs) → All P xs
  unfolding sort
  All-of-sort [] h = tt
  All-of-sort (x ∷ xs) h = let (px, ps) = All-insert x (sort le xs) h in (px, All-of-sort xs ps)

  Any-insert : (x : A) (xs : List A) → Any P (insert le x xs) → P x ⊎ Any P xs
  unfolding insert
  Any-insert x [] h = h
  Any-insert x (y ∷ ys) h = elim (Bool-cases (le x y)) [
    | inl e ↦ rw e at h
    | inr e ↦
        let one : P y ⊎ Any P (insert le x ys) = rw e at h in
        elim one [
          | inl p ↦ inr (inl p)
          | inr rest ↦ elim (Any-insert x ys rest) [ inl p ↦ inl p | inr later ↦ inr (inr later) ]
        ]
  ]

  pub Any-of-sort : (xs : List A) → Any P (sort le xs) → Any P xs
  unfolding sort
  Any-of-sort [] h = h
  Any-of-sort (x ∷ xs) h = elim (Any-insert x (sort le xs) h) [
    | inl p ↦ inl p
    | inr rest ↦ inr (Any-of-sort xs rest)
  ]

pub keep_if-IsSorted {ℓ} :
    {A : Type ℓ} (le : A → A → Bool) (p : A → Bool) (xs : List A)
    → IsSorted le xs
    → IsSorted le (keep_if p xs)
keep_if-IsSorted le p [] h = tt
keep_if-IsSorted le p (x ∷ xs) (hx, h) = elim (Bool-cases (p x)) [
  | inl e ↦ rw (IsSorted, keep_if, e) (All-keep_if p _ xs hx, keep_if-IsSorted le p xs h)
  | inr e ↦ rw (keep_if, e) (keep_if-IsSorted le p xs h)
]
