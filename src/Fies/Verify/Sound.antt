-- ===== src/Fies/Verify/Sound.antt =====
-- What a merged file is like that `Verify` accepts.
use fie_importer.Prelude.{
  ℕ, ◌≡◌, refl, sym, ap, ◌∙◌, inl, inr, Bool, true, false, Option, none, some, List, [], ◌∷◌, ◌++◌,
  arith, ltb, if◌then◌else◌, Bool-cases, ==_iff, All, ℤ, All-map,
}
use fie_importer.Fies.Verify.{
  eq_ℤ, Want, want_of, delete, Group, wrong_count, is_wanted, group_problems, missing, check_groups,
}

abbrev pub or_zero : Option ℕ → ℕ
or_zero none = 0
or_zero (some n) = n

-- A group without a problem
abbrev pub IsFine : Group → Option ℕ → Type 0
IsFine g w = (w ≡ some g.n) × (g.back ≡ 0) × (g.unsorted ≡ 0)

nil_left : {A : Type 0} (xs ys : List A) → xs ++ ys ≡ [] → (xs ≡ []) × (ys ≡ [])
nil_left [] ys h = (refl, h)
nil_left (x ∷ xs) ys h = absurd (cc)

if_nil : {A : Type 0} (b : Bool) (x : A) → (if b then x ∷ [] else []) ≡ [] → b ≡ false
if_nil true x h = absurd (cc)
if_nil false x h = refl

nil_if : {A : Type 0} (b : Bool) (x : A) → (if b then [] else x ∷ []) ≡ [] → b ≡ true
nil_if true x h = refl
nil_if false x h = absurd (cc)

is_wanted_lem : (w : Option ℕ) (n : ℕ) → is_wanted w n ≡ true → w ≡ some n
is_wanted_lem none n h = absurd (cc)
is_wanted_lem (some w) n h = ap (λ k. some k) ((==_iff w n).0 h)

is_zero : (n : ℕ) → ltb 0 n ≡ false → n ≡ 0
is_zero n h = ground arith

group_problems-IsFine : (g : Group) (w : Option ℕ) → group_problems g w ≡ [] → IsFine g w
unfolding group_problems
group_problems-IsFine g w h =
    let (count, rest) = nil_left (if is_wanted w g.n then [] else wrong_count g.seg g.n ∷ []) _ h in
    let (back, unsorted) = nil_left _ _ rest in
    (
      is_wanted_lem w g.n (nil_if _ _ count),
      let none_back : ltb 0 g.back ≡ false = if_nil _ _ back in is_zero g.back none_back,
      let none_unsorted : ltb 0 g.unsorted ≡ false = if_nil _ _ unsorted in
          is_zero g.unsorted none_unsorted,
    )

missing_lem : (m : Want) (seg : ℤ) → missing m ≡ [] → or_zero (want_of seg m) ≡ 0
unfolding missing want_of
missing_lem [] seg h = refl
missing_lem ((s, w) ∷ m) seg h = elim (Bool-cases (ltb 0 w)) [
  | inl e ↦ absurd (cc (rw (missing, e) at h))
  | inr e ↦ elim (Bool-cases (eq_ℤ s seg)) [
    | inl f ↦ rw (want_of, f) (ground arith)
    | inr f ↦ rw (want_of, f) (missing_lem m seg (rw (missing, e) at h))
  ]
]

-- What `want` has for a segment after another one was deleted, it had before.
eq_trans : (a b c : ℤ) → eq_ℤ a b ≡ true → eq_ℤ a c ≡ true → eq_ℤ b c ≡ true
eq_trans a b c h k = ground arith

not_eq : (x s seg : ℤ) → eq_ℤ s seg ≡ true → eq_ℤ x s ≡ false → eq_ℤ x seg ≡ false
not_eq x s seg h e = ground arith

pub deleted : (m : Want) (s seg : ℤ) → eq_ℤ s seg ≡ true → want_of seg (delete s m) ≡ none
unfolding want_of delete
deleted [] s seg h = refl
deleted ((x, w) ∷ m) s seg h = elim (Bool-cases (eq_ℤ x s)) [
  | inl e ↦ rw (delete, e) (deleted m s seg h)
  | inr e ↦ let f = not_eq x s seg h e in rw (delete, want_of, e, f) (deleted m s seg h)
]

want_of-delete :
    (m : Want) (s seg : ℤ) (n : ℕ) → want_of seg (delete s m) ≡ some n → want_of seg m ≡ some n
unfolding want_of delete
want_of-delete [] s seg n h = h
want_of-delete ((x, w) ∷ m) s seg n h = elim (Bool-cases (eq_ℤ x s)) [
  | inr e ↦ elim (Bool-cases (eq_ℤ x seg)) [
    | inl f ↦ rw (want_of, f) (rw (delete, want_of, e, f) at h)
    | inr f ↦ rw (want_of, f) (want_of-delete m s seg n (rw (delete, want_of, e, f) at h))
  ]
  | inl e ↦ elim (Bool-cases (eq_ℤ x seg)) [
    | inl f ↦
        let gone = deleted m s seg (eq_trans x s seg e f) in absurd (cc (gone, rw (delete, e) at h))
    | inr f ↦ rw (want_of, f) (want_of-delete m s seg n (rw (delete, e) at h))
  ]
]

IsFine-delete :
    (m : Want) (s : ℤ) (g : Group)
    → IsFine g (want_of g.seg (delete s m))
    → IsFine g (want_of g.seg m)
IsFine-delete m s g (count, back, unsorted) = (want_of-delete m s g.seg g.n count, back, unsorted)

-- A file whose check finds no problem: each group is as it should be, and no other segment should have rows.
pub check_groups-IsFine :
    (gs : List Group) (m : Want) → check_groups gs m ≡ [] → All (λ g. IsFine g (want_of g.seg m)) gs
unfolding check_groups
check_groups-IsFine [] m h = tt
check_groups-IsFine (g ∷ gs) m h =
    let (this, rest) = nil_left (group_problems g (want_of g.seg m)) _ h in
    (
      group_problems-IsFine g (want_of g.seg m) this,
      All-map _ _ (λ x fine. IsFine-delete m g.seg x fine) gs
          (check_groups-IsFine gs (delete g.seg m) rest),
    )

pub kept : (m : Want) (s seg : ℤ) → eq_ℤ s seg ≡ false → want_of seg (delete s m) ≡ want_of seg m
unfolding want_of delete
kept [] s seg h = refl
kept ((x, w) ∷ m) s seg h = elim (Bool-cases (eq_ℤ x s)) [
  | inl e ↦ let f : eq_ℤ x seg ≡ false = ground arith in rw (delete, want_of, e, f) (kept m s seg h)
  | inr e ↦ elim (Bool-cases (eq_ℤ x seg)) [
    | inl f ↦ rw (delete, want_of, e, f) refl
    | inr f ↦ rw (delete, want_of, e, f) (kept m s seg h)
  ]
]

pub check_groups_none :
    (gs : List Group) (m : Want) (seg : ℤ)
    → check_groups gs m ≡ []
    → All (λ g. eq_ℤ g.seg seg ≡ false) gs
    → or_zero (want_of seg m) ≡ 0
unfolding check_groups
check_groups_none [] m seg h others = missing_lem m seg h
check_groups_none (g ∷ gs) m seg h (other, others) =
    let (this, rest) = nil_left (group_problems g (want_of g.seg m)) _ h in
    ap or_zero (sym (kept m g.seg seg other))
    ∙ check_groups_none gs (delete g.seg m) seg rest others
