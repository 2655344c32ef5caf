-- ===== src/Prelude/Sort/Kept.antt =====
-- A sort and a test of the elements can be done in either order.
use fie_importer.Prelude.{
  All-keep_if, keep_if_kept, keep_if_left, ◌≡◌, refl, sym, ap, ◌∙◌, inl, inr, Bool, true, false,
  List, [], ◌∷◌, Bool-cases, All, keep_if,
}
use fie_importer.Prelude.Sort.{insert, sort, IsSorted, sort-IsSorted}

module _ {ℓ} {A : Type ℓ} (le : A → A → Bool) (total : (x y : A) → le x y ≡ false → le y x ≡ true)
    (trans : (x y z : A) → le x y ≡ true → le y z ≡ true → le x z ≡ true) (p : A → Bool) where
  insert_front : (x : A) (ys : List A) → All (λ y. le x y ≡ true) ys → insert le x ys ≡ x ∷ ys
  unfolding insert
  insert_front x [] h = refl
  insert_front x (y ∷ ys) (e, h) = rw e refl

  above :
      (x y : A) (ys : List A)
      → le x y ≡ true
      → All (λ z. le y z ≡ true) ys
      → All (λ z. le x z ≡ true) ys
  above x y [] e h = tt
  above x y (z ∷ ys) e (hz, h) = (trans x y z e hz, above x y ys e h)

  abbrev inserted_if : A → List A → List A
  inserted_if x ys = elim (p x) [ true ↦ insert le x ys | false ↦ ys ]

  insert_behind :
      (x y : A) (ys : List A) → le x y ≡ false → insert le x (y ∷ ys) ≡ y ∷ insert le x ys
  unfolding insert
  insert_behind x y ys e = rw e refl

  inserted_behind :
      (x y : A) (ys : List A) → le x y ≡ false → y ∷ inserted_if x ys ≡ inserted_if x (y ∷ ys)
  inserted_behind x y ys e = elim (Bool-cases (p x)) [
    | inl px ↦ rw (inserted_if, px) (sym (insert_behind x y ys e))
    | inr px ↦ rw (inserted_if, px) refl
  ]

  insert_before : (x y : A) (ys : List A) → le x y ≡ true → insert le x (y ∷ ys) ≡ x ∷ y ∷ ys
  unfolding insert
  insert_before x y ys e = rw e refl

  keep_if-insert :
      (x : A) (ys : List A)
      → IsSorted le ys
      → keep_if p (insert le x ys) ≡ inserted_if x (keep_if p ys)
  keep_if-insert x [] h = unfold insert in refl
  keep_if-insert x (y ∷ ys) (hy, h) = elim (Bool-cases (le x y)) [
    | inl e ↦ elim (Bool-cases (p x)) [
      | inl px ↦
          ap (keep_if p) (insert_before x y ys e)
          ∙ keep_if_kept p x (y ∷ ys) px
          ∙ sym (
              insert_front x (keep_if p (y ∷ ys))
                (All-keep_if p (λ z. le x z ≡ true) (y ∷ ys) (e, above x y ys e hy)))
          ∙ rw (inserted_if, px) refl
      | inr px ↦
          ap (keep_if p) (insert_before x y ys e)
          ∙ keep_if_left p x (y ∷ ys) px
          ∙ rw (inserted_if, px) refl
    ]
    | inr e ↦ elim (Bool-cases (p y)) [
      | inl py ↦
          ap (keep_if p) (insert_behind x y ys e)
          ∙ keep_if_kept p y (insert le x ys) py
          ∙ ap (λ l. y ∷ l) (keep_if-insert x ys h)
          ∙ inserted_behind x y (keep_if p ys) e
          ∙ ap (inserted_if x) (sym (keep_if_kept p y ys py))
      | inr py ↦
          ap (keep_if p) (insert_behind x y ys e)
          ∙ keep_if_left p y (insert le x ys) py
          ∙ keep_if-insert x ys h
          ∙ ap (inserted_if x) (sym (keep_if_left p y ys py))
    ]
  ]

  inserted-keep_if :
      (x : A) (xs : List A) → inserted_if x (sort le (keep_if p xs)) ≡ sort le (keep_if p (x ∷ xs))
  inserted-keep_if x xs = elim (Bool-cases (p x)) [
    | inl e ↦ rw (inserted_if, e) (unfold sort in ap (sort le) (sym (keep_if_kept p x xs e)))
    | inr e ↦ rw (inserted_if, e) (ap (sort le) (sym (keep_if_left p x xs e)))
  ]

  pub sort-keep_if : (xs : List A) → sort le (keep_if p xs) ≡ keep_if p (sort le xs)
  sort-keep_if [] = unfold sort in refl
  sort-keep_if (x ∷ xs) =
      sym (inserted-keep_if x xs)
      ∙ ap (inserted_if x) (sort-keep_if xs)
      ∙ sym (keep_if-insert x (sort le xs) (sort-IsSorted le total trans xs))
      ∙ unfold sort in refl
