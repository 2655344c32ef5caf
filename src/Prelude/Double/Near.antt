-- ===== src/Prelude/Double/Near.antt =====
-- How near the rounded results of `Double` are.
use native.Mathlib.Nat.{pow-suc}
use fie_importer.Prelude.{
  ℕ, zero, suc, ◌+◌, ◌*◌, ◌/◌, ◌%◌, ◌^◌, ◌≤◌, ◌<◌, ◌≡◌, refl, sym, ap, ◌∙◌, ◌⊎◌, inl, inr, Bool,
  true, false, ltb, leb, arith, Bool-cases,
}
use fie_importer.Prelude.Double.{nearer, nearest, one_more, places}

-- Half of b is the most that n * b is off from a.
abbrev pub IsNearest : ℕ → ℕ → ℕ → Type 0
IsNearest n a b = (2 * (n * b) ≤ 2 * a + b) × (2 * a ≤ 2 * (n * b) + b)

whole_lem : (a b : ℕ) → 0 < b → (a ≡ a / b * b + a % b) × (a % b < b)
whole_lem a b h = (omega arith, omega arith)

parity : (q : ℕ) → (q % 2 ≡ 0) ⊎ (q % 2 ≡ 1)
parity q = elim (Bool-cases (ltb (q % 2) 1)) [
  | inl e ↦ inl (ground arith)
  | inr e ↦ inr (ground arith)
]

nearer_lem :
    (less more : Bool) (a b q r : ℕ)
    → a ≡ q * b + r
    → r < b
    → ltb (2 * r) b ≡ less
    → ltb b (2 * r) ≡ more
    → IsNearest (nearer less more q) a b
nearer_lem true more a b q r e small l m =
    let l' : 2 * r < b = ground arith in (omega arith, omega arith)
nearer_lem false true a b q r e small l m =
    let l' : b ≤ 2 * r = ground arith in (omega arith, omega arith)
nearer_lem false false a b q r e small l m =
    let l' : b ≤ 2 * r = ground arith in
    let m' : 2 * r ≤ b = ground arith in
    elim (parity q) [
      | inl even ↦ rw even (omega arith, omega arith)
      | inr odd ↦ rw odd (omega arith, omega arith)
    ]

pub nearest_lem : (a b : ℕ) → 0 < b → IsNearest (nearest a b) a b
unfolding nearest
nearest_lem a b h =
    let (whole, small) = whole_lem a b h in nearer_lem _ _ a b (a / b) (a % b) whole small refl refl

double_lem : (a x : ℕ) → 2 * a * x ≡ a * (x * 2)
double_lem a x = omega arith

doubled : (a s : ℕ) → 2 * a * 2 ^ s ≡ a * 2 ^ suc s
doubled a s = double_lem a (2 ^ s) ∙ ap (λ x. a * x) (sym (pow-suc 2 s))

one_more_lem :
    (enough : Bool) (more a b s : ℕ)
    → leb (2 ^ 52 * b) a ≡ enough
    → (2 ^ 52 * b ≤ 2 * a * 2 ^ s) ⊎ (s ≡ more)
    → (2 ^ 52 * b ≤ a * 2 ^ one_more enough s) ⊎ (one_more enough s ≡ suc more)
one_more_lem true more a b s e h = inl (ground arith)
one_more_lem false more a b s e (inl h) = inl (rw (sym (doubled a s)) h)
one_more_lem false more a b s e (inr h) = inr (ap suc h)

pub places_lem : (more a b : ℕ) → (2 ^ 52 * b ≤ a * 2 ^ places more a b) ⊎ (places more a b ≡ more)
unfolding places
places_lem zero a b = inr refl
places_lem (suc more) a b =
    one_more_lem _ more a b (places more (2 * a) b) refl (places_lem more (2 * a) b)
