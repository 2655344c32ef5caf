-- ===== src/Prelude/Each.antt =====
-- Predicates of some element, and of the elements that a test keeps.
use mathlib.Core.Logic.{◌⊎◌, inl, inr}
use mathlib.Core.Path.{◌≡◌, refl, sym, ap, ◌∙◌}
use mathlib.Core.Bool.{Bool, true, false, not, ◌&&◌}
use mathlib.Core.Path.{fun_ext}
use Prim.Native.Nat.{ℕ, ◌+◌}
use mathlib.Core.List.{List, [], ◌∷◌, map}
use fie_importer.Prelude.Tests.{Bool-cases, if◌then◌else◌}
use fie_importer.Prelude.Lists.{All, keep_if}

-- How many elements pass a test
abbrev pub how_many {ℓ} : {A : Type ℓ} → (A → Bool) → List A → ℕ
how_many test [] = 0
how_many test (x ∷ xs) = (if test x then 1 else 0) + how_many test xs

-- The elements that are not equal to one before
abbrev pub distinct_by {ℓ} : {A : Type ℓ} → (A → A → Bool) → List A → List A
distinct_by eq [] = []
distinct_by eq (x ∷ xs) = x ∷ keep_if (λ y. not (eq x y)) (distinct_by eq xs)

-- A predicate of some element
module _ {ℓ} {A : Type ℓ} (P : A → Type 0) where
  abbrev pub Any : List A → Type 0
  Any [] = ⊥
  Any (x ∷ xs) = P x ⊎ Any xs

-- What holds of all, or of one, of the elements that a test keeps.
module _ {ℓ} {A : Type ℓ} (p : A → Bool) (P : A → Type 0) where
  pub All-keep_if : (xs : List A) → All P xs → All P (keep_if p xs)
  All-keep_if [] h = tt
  All-keep_if (x ∷ xs) (px, h) = elim (Bool-cases (p x)) [
    | inl e ↦ rw (All, keep_if, e) (px, All-keep_if xs h)
    | inr e ↦ rw (keep_if, e) (All-keep_if xs h)
  ]

  pub All-of-keep_if : (xs : List A) → All P (keep_if p xs) → All (λ x. p x ≡ true → P x) xs
  All-of-keep_if [] h = tt
  All-of-keep_if (x ∷ xs) h = elim (Bool-cases (p x)) [
    | inl e ↦
        let both : P x × All P (keep_if p xs) = rw (All, keep_if, e) at h in
        (λ _. both.0, All-of-keep_if xs both.1)
    | inr e ↦ (λ t. absurd (cc), All-of-keep_if xs (rw (All, keep_if, e) at h))
  ]

  pub Any-of-keep_if : (xs : List A) → Any P (keep_if p xs) → Any (λ x. (p x ≡ true) × P x) xs
  Any-of-keep_if [] h = h
  Any-of-keep_if (x ∷ xs) h = elim (Bool-cases (p x)) [
    | inl e ↦
        let either : P x ⊎ Any P (keep_if p xs) = rw (Any, keep_if, e) at h in
        elim either [ inl q ↦ inl (e, q) | inr rest ↦ inr (Any-of-keep_if xs rest) ]
    | inr e ↦ inr (Any-of-keep_if xs (rw (Any, keep_if, e) at h))
  ]

module _ {ℓ} {A : Type ℓ} (P Q : A → Type 0) where
  pub All-map : ((x : A) → P x → Q x) → (xs : List A) → All P xs → All Q xs
  All-map f [] h = tt
  All-map f (x ∷ xs) (hx, h) = (f x hx, All-map f xs h)

  pub Any-map : ((x : A) → P x → Q x) → (xs : List A) → Any P xs → Any Q xs
  Any-map f [] h = h
  Any-map f (x ∷ xs) (inl h) = inl (f x h)
  Any-map f (x ∷ xs) (inr h) = inr (Any-map f xs h)

  -- One element for which `P` holds, where `Q` holds of all
  pub Any-All : (xs : List A) → Any P xs → All Q xs → Any (λ x. P x × Q x) xs
  Any-All [] h all = h
  Any-All (x ∷ xs) (inl h) (q, all) = inl (h, q)
  Any-All (x ∷ xs) (inr h) (q, all) = inr (Any-All xs h all)

module _ {ℓ} {A : Type ℓ} (p : A → Bool) where
  pub keep_if_kept : (x : A) (xs : List A) → p x ≡ true → keep_if p (x ∷ xs) ≡ x ∷ keep_if p xs
  keep_if_kept x xs e = rw (keep_if, e) refl

  pub keep_if_left : (x : A) (xs : List A) → p x ≡ false → keep_if p (x ∷ xs) ≡ keep_if p xs
  keep_if_left x xs e = rw (keep_if, e) refl

  pub keep_if_none : (xs : List A) → All (λ x. p x ≡ false) xs → keep_if p xs ≡ []
  keep_if_none [] h = refl
  keep_if_none (x ∷ xs) (e, h) = keep_if_left x xs e ∙ keep_if_none xs h

  pub keep_if_same :
      (q : A → Bool) (xs : List A) → All (λ x. p x ≡ q x) xs → keep_if p xs ≡ keep_if q xs
  keep_if_same q [] h = refl
  keep_if_same q (x ∷ xs) (e, h) = elim (Bool-cases (p x)) [
    | inl t ↦
        let u : q x ≡ true = sym e ∙ t in rw (keep_if, t, u) (ap (λ l. x ∷ l) (keep_if_same q xs h))
    | inr t ↦ let u : q x ≡ false = sym e ∙ t in rw (keep_if, t, u) (keep_if_same q xs h)
  ]

module _ {A : Type 0} where
  pub by_any : {C : Type 0} (P : A → Type 0) → ((x : A) → P x → C) → (xs : List A) → Any P xs → C
  by_any P f [] h = absurd h
  by_any P f (x ∷ xs) (inl h) = f x h
  by_any P f (x ∷ xs) (inr h) = by_any P f xs h

  pub All-swapped :
      {B : Type 0} (P : A → B → Type 0) (xs : List A) (ys : List B)
      → All (λ x. All (λ y. P x y) ys) xs
      → All (λ y. All (λ x. P x y) xs) ys
  All-swapped P xs [] h = tt
  All-swapped P xs (y ∷ ys) h =
      (All-map _ _ (λ x all. all.0) xs h, All-swapped P xs ys (All-map _ _ (λ x all. all.1) xs h))

  module _ (p : A → Bool) where
    pub Any-none : (xs : List A) → Any (λ x. p x ≡ true) xs ⊎ All (λ x. p x ≡ false) xs
    Any-none [] = inr tt
    Any-none (x ∷ xs) = elim (Bool-cases (p x)) [
      | inl e ↦ inl (inl e)
      | inr e ↦ elim (Any-none xs) [ inl h ↦ inl (inr h) | inr h ↦ inr (e, h) ]
    ]

    pub Any-keep_if :
        (P : A → Type 0)
        → ((x : A) → P x → p x ≡ true)
        → (xs : List A) → Any P xs
        → Any P (keep_if p xs)
    Any-keep_if P f [] h = h
    Any-keep_if P f (x ∷ xs) (inl h) = let e = f x h in rw (keep_if, e) (inl h)
    Any-keep_if P f (x ∷ xs) (inr h) = elim (Bool-cases (p x)) [
      | inl e ↦ rw (keep_if, e) (inr (Any-keep_if P f xs h))
      | inr e ↦ rw (keep_if, e) (Any-keep_if P f xs h)
    ]

  module _ {B : Type 0} (f : A → B) where
    pub All-of-map : (P : B → Type 0) (xs : List A) → All P (map f xs) → All (λ x. P (f x)) xs
    All-of-map P [] h = tt
    All-of-map P (x ∷ xs) (px, h) = (px, All-of-map P xs h)

    pub map-All : (P : B → Type 0) (xs : List A) → All (λ x. P (f x)) xs → All P (map f xs)
    map-All P [] h = tt
    map-All P (x ∷ xs) (px, h) = (px, map-All P xs h)

    pub map-Any : (P : B → Type 0) (xs : List A) → Any (λ x. P (f x)) xs → Any P (map f xs)
    map-Any P [] h = h
    map-Any P (x ∷ xs) (inl h) = inl h
    map-Any P (x ∷ xs) (inr h) = inr (map-Any P xs h)

pub All-both :
    {A : Type 0} (P Q : A → Type 0) (xs : List A) → All P xs → All Q xs → All (λ x. P x × Q x) xs
All-both P Q [] hp hq = tt
All-both P Q (x ∷ xs) (p, hp) (q, hq) = ((p, q), All-both P Q xs hp hq)

module _ {A : Type 0} where
  pub keep_if_ext :
      (p q : A → Bool) → ((x : A) → p x ≡ q x) → (xs : List A) → keep_if p xs ≡ keep_if q xs
  keep_if_ext p q h xs = ap (λ f. keep_if f xs) (fun_ext h)

  pub keep_if-keep_if :
      (p q : A → Bool) (xs : List A) → keep_if p (keep_if q xs) ≡ keep_if (λ x. q x && p x) xs
  keep_if-keep_if p q [] = refl
  keep_if-keep_if p q (x ∷ xs) = elim (Bool-cases (q x)) [
    | inl e ↦ elim (Bool-cases (p x)) [
      | inl f ↦ rw (keep_if, e, f) (ap (λ l. x ∷ l) (keep_if-keep_if p q xs))
      | inr f ↦ rw (keep_if, e, f) (keep_if-keep_if p q xs)
    ]
    | inr e ↦ rw (keep_if, e) (keep_if-keep_if p q xs)
  ]
