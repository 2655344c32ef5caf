-- ===== src/Fies/Filter/Share.antt =====
-- The share of the buckets that the percentage of a filter gives.
use native.Mathlib.Nat.{
  div-mul-le_self, lt-div-mul-add, mul-le-mul_right, le_of_mul-le-mul_right, lt_of_mul-lt-mul_right,
  mul-lt-mul_of_pos_right, mul-pos, one-le-pow,
}
use fie_importer.Prelude.{
  ℕ, ◌+◌, ◌*◌, ◌/◌, ◌^◌, ◌≤◌, ◌<◌, ◌≡◌, refl, ◌⊎◌, inl, inr, true, false, arith, ltb, Bool-cases,
}
use fie_importer.Prelude.Double.{Double, nan, infinite, number, nearest, places, rounded}
use fie_importer.Fies.Filter.{Filter, is_sampling, threshold}
use fie_importer.Prelude.Double.Near.{IsNearest, nearest_lem, places_lem}

-- `t` of a million, and num / den percent of a million, differ by less than one, but for 2⁻³⁰.
abbrev pub IsShareOf : ℕ → ℕ → ℕ → Type 0
IsShareOf t num den =
    (2 ^ 30 * (t * (100 * den)) ≤ 2 ^ 30 * (1_000_000 * num) + 100 * den)
    × (2 ^ 30 * (1_000_000 * num) < 2 ^ 30 * ((t + 1) * (100 * den)) + 100 * den)

-- Two roundings on the way
module _ (num d s t n m : ℕ) (some_s : 2 ^ 52 ≤ s) (some_t : 2 ^ 31 ≤ t) (some_d : 0 < d)
    (first : IsNearest n (num * s) d) (second : IsNearest m (n * 1_000_000 * t) s) where
  positive : 0 < t * s
  positive = mul-pos (omega arith) (omega arith)

  at_most : 2 ^ 30 * (m / t * d) ≤ 2 ^ 30 * (1_000_000 * num) + d
  at_most =
      le_of_mul-le-mul_right {k = t * s}
        (omega (
          arith,
          mul-le-mul_right (t * 1_000_000) first.0,
          mul-le-mul_right d second.0,
          mul-le-mul_right (s * d) (div-mul-le_self m t),
          mul-le-mul_right (t * d) some_s,
          mul-le-mul_right (s * d) some_t,
        ))
        positive

  above : 2 ^ 30 * (1_000_000 * num) < 2 ^ 30 * ((m / t + 1) * d) + d
  above = lt_of_mul-lt-mul_right (t * s) (
      omega (
        arith,
        mul-le-mul_right (t * 1_000_000) first.1,
        mul-le-mul_right d second.1,
        mul-lt-mul_of_pos_right {k = s * d} (lt-div-mul-add {a = m} {b = t} (omega arith))
            (mul-pos (omega arith) some_d),
        mul-le-mul_right (t * d) some_s,
        mul-le-mul_right (s * d) some_t,
      ))

-- The exponents are large enough for this.
enough : (n k : ℕ) → n < 100 * 2 ^ k → 2 ^ 52 ≤ 2 ^ places 1074 n (100 * 2 ^ k)
enough n k small = elim (places_lem 1074 n (100 * 2 ^ k)) [
  | inl h ↦
      le_of_mul-le-mul_right {k = 100 * 2 ^ k}
        (omega (arith, h, mul-le-mul_right (2 ^ places 1074 n (100 * 2 ^ k)) small))
        (omega (arith, one-le-pow k 2 (omega arith)))
  | inr e ↦ rw e (omega arith)
]

enough_again :
    (num d s n : ℕ)
    → num < d
    → 2 ^ 52 ≤ s
    → IsNearest n (num * s) d
    → 2 ^ 31 ≤ 2 ^ places 1074 (n * 1_000_000) s
enough_again num d s n small some_s near = elim (places_lem 1074 (n * 1_000_000) s) [
  | inr e ↦ rw e (omega arith)
  | inl h ↦
      let t = 2 ^ places 1074 (n * 1_000_000) s in
      let few : n ≤ 2 * s =
        le_of_mul-le-mul_right {k = d}
          (omega (arith, near.0, mul-le-mul_right s small, mul-le-mul_right d some_s))
          (omega arith) in
      le_of_mul-le-mul_right {k = s} (omega (arith, h, mul-le-mul_right (1_000_000 * t) few))
        (omega arith)
]

-- What the filter's sample is: none, or the share of the buckets that the percentage gives
abbrev pub IsShare : Double → ℕ → Type 0
IsShare nan t = ⊥
IsShare (infinite s) t = ⊥
IsShare (number true n k) t = ⊥
IsShare (number false n k) t = IsShareOf t n (2 ^ k)

number_lem : (n k : ℕ) → n < 100 * 2 ^ k → IsShareOf (threshold (number false n k)) n (2 ^ k)
unfolding threshold rounded
number_lem n k small =
    let d = 100 * 2 ^ k in
    let some_d : 0 < d = omega (arith, one-le-pow k 2 (omega arith)) in
    let s = 2 ^ places 1074 n d in
    let some_s = enough n k small in
    let first = nearest_lem (n * s) d some_d in
    let again = nearest (n * s) d in
    let t = 2 ^ places 1074 (again * 1_000_000) s in
    let some_t = enough_again n d s again small some_s first in
    let second = nearest_lem (again * 1_000_000 * t) s (omega arith) in
    (
      at_most n d s t again (nearest (again * 1_000_000 * t) s) some_s some_t some_d first second,
      above n d s t again (nearest (again * 1_000_000 * t) s) some_s some_t some_d first second,
    )

abbrev pub IsSample : Filter → Type 0
IsSample flt = (is_sampling flt.percent ≡ false) ⊎ IsShare flt.percent (threshold flt.percent)

percent_lem : (p : Double) → (is_sampling p ≡ false) ⊎ IsShare p (threshold p)
percent_lem nan = inl refl
percent_lem (infinite true) = inl refl
percent_lem (infinite false) = inl refl
percent_lem (number true n k) = inl refl
percent_lem (number false n k) = elim (Bool-cases (ltb n (100 * 2 ^ k))) [
  | inl e ↦ inr (number_lem n k (ground arith))
  | inr e ↦ inl (ground arith)
]

pub filter-IsSample : (flt : Filter) → IsSample flt
filter-IsSample flt = percent_lem flt.percent
