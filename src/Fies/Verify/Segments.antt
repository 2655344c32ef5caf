-- ===== src/Fies/Verify/Segments.antt =====
-- The segments of files that do not overlap.
use native.Mathlib.Nat.{le-div_iff_mul-le, div-mul-le_self, add-mul}
use mathlib.Core.Path.{subst}
use fie_importer.Prelude.{
  ℕ, suc, ◌+◌, ◌*◌, ◌/◌, ◌≤◌, ◌<◌, ◌≡◌, refl, sym, ap, true, false, List, [], ◌∷◌, arith, length,
  All, ℤ, pos, negsuc, pos_part, ◌≤ℤ◌, ◌<ℤ◌, +ℤ_parts, -ℤ_parts, ◌+ℤ◌, ◌-ℤ◌, All-map,
}
use fie_importer.Prelude.Time.{second, unix, floor_div, unix_epoch, trunc_div}
use fie_importer.Fies.File.{File, end}
use fie_importer.Fies.Layout.Disjoint.{IsDisjoint, HasLength, start-le-end}
use fie_importer.Fies.Verify.{eq_ℤ, quotient, Want, wanted, want_from}
use fie_importer.Fies.Verify.Merged.{eq_to_path}
use fie_importer.Fies.Verify.Files.{segment_of, AreApart, next_want, want_from_step}

-- An instant later by a length is later by its whole seconds.
floor_step :
    (t u : ℤ) (n : ℕ)
    → t +ℤ pos n ≤ℤ u
    → floor_div t second +ℤ pos (n / second) ≤ℤ floor_div u second
floor_step (pos a) (pos b) n h =
    omega (arith, +ℤ_parts (pos a) (pos n), +ℤ_parts (pos (a / second)) (pos (n / second)))
floor_step (negsuc a) (pos b) n h =
    omega (arith, +ℤ_parts (negsuc a) (pos n), +ℤ_parts (negsuc (a / second)) (pos (n / second)))
floor_step (negsuc a) (negsuc b) n h =
    omega (arith, +ℤ_parts (negsuc a) (pos n), +ℤ_parts (negsuc (a / second)) (pos (n / second)))
floor_step (pos a) (negsuc b) n h = absurd (omega (arith, +ℤ_parts (pos a) (pos n)))

unix_step : (t u : ℤ) (n : ℕ) → t +ℤ pos n ≤ℤ u → unix t +ℤ pos (n / second) ≤ℤ unix u
unfolding unix
unix_step t u n h =
    let step = floor_step t u n h in
    let a = floor_div t second in
    let b = floor_div u second in
    omega (
      arith,
      step,
      +ℤ_parts a (pos (n / second)),
      -ℤ_parts a (pos unix_epoch),
      -ℤ_parts b (pos unix_epoch),
      +ℤ_parts (a -ℤ pos unix_epoch) (pos (n / second)),
    )

div_step : (m n k : ℕ) → 0 < k → m + k ≤ n → m / k < n / k
div_step m n k some_k h =
    let below = div-mul-le_self m k in
    let next : (m / k + 1) * k ≡ m / k * k + 1 * k = add-mul (m / k) 1 k in
    (le-div_iff_mul-le {k = k} {x = suc (m / k)} {y = n} some_k).1 (omega (arith, below, next))

quotient_step :
    (x y : ℤ) (k : ℕ)
    → 0 < k
    → pos 0 ≤ℤ x
    → x +ℤ pos k ≤ℤ y
    → eq_ℤ (quotient y (pos k)) (quotient x (pos k)) ≡ false
unfolding quotient
quotient_step (pos m) (pos n) k some_k low h =
    let step = div_step m n k some_k (omega (arith, +ℤ_parts (pos m) (pos k))) in ground arith
quotient_step (pos m) (negsuc n) k some_k low h = absurd (omega (arith, +ℤ_parts (pos m) (pos k)))
quotient_step (negsuc m) y k some_k low h = absurd (omega arith)

module _ (origin : ℤ) (k : ℕ) where
  -- Two files of the length `k`, the later one behind the end of the earlier one
  segment_step :
      (f g : File) (n : ℕ)
      → f.interval ≡ pos n
      → n / second ≡ k
      → 0 < k
      → pos 0 ≤ℤ unix f.interval_start -ℤ origin
      → end f ≤ℤ g.interval_start
      → eq_ℤ (segment_of origin (pos k) g) (segment_of origin (pos k) f) ≡ false
  unfolding end
  segment_step f g n length size some_k low h =
      let step : unix f.interval_start +ℤ pos (n / second) ≤ℤ unix g.interval_start =
        unix_step f.interval_start g.interval_start n (rw length at h) in
      let x = unix f.interval_start in
      let y = unix g.interval_start in
      quotient_step (x -ℤ origin) (y -ℤ origin) k some_k low (
        omega (
          arith,
          rw size at step,
          +ℤ_parts x (pos k),
          +ℤ_parts (x -ℤ origin) (pos k),
          -ℤ_parts x origin,
          -ℤ_parts y origin,
        ))

  abbrev IsEqual : File → Type 0
  IsEqual f = eq_ℤ (trunc_div f.interval second) (pos k) ≡ true

  abbrev IsBehind : File → Type 0
  IsBehind f = pos 0 ≤ℤ unix f.interval_start -ℤ origin

  length_lem : (i : ℤ) → pos 0 <ℤ i → (n : ℕ) × (i ≡ pos n)
  length_lem (pos n) h = (n, refl)
  length_lem (negsuc n) h = absurd (omega arith)

  apart_lem :
      (files : List File)
      → 0 < k
      → All HasLength files
      → All IsEqual files
      → All IsBehind files
      → IsDisjoint files
      → AreApart origin (pos k) files
  apart_lem [] some_k ls es bs ds = tt
  apart_lem (f ∷ files) some_k (l, ls) (e, es) (b, bs) (d, ds) =
      let (n, length) = length_lem f.interval l in
      let same : trunc_div f.interval second ≡ pos k =
        eq_to_path (trunc_div f.interval second) (pos k) e in
      let size : n / second ≡ k = ap pos_part (rw length at same) in
      (
        All-map _ _ (λ g behind. segment_step f g n length size some_k b behind) files d,
        apart_lem files some_k ls es bs ds,
      )

lengths_lem :
    (origin secs : ℤ) (files : List File) (m n : Want)
    → want_from origin secs files m ≡ wanted n
    → All (λ f. eq_ℤ (trunc_div f.interval second) secs ≡ true) files
lengths_lem origin secs [] m n h = tt
lengths_lem origin secs (f ∷ files) m n h =
    let (e, z, rest) = want_from_step origin secs f files m n h in
    (e, lengths_lem origin secs files (next_want origin secs f m) n rest)

behind_lem :
    (f g : File)
    → HasLength f
    → end f ≤ℤ g.interval_start
    → pos 0 ≤ℤ unix g.interval_start -ℤ unix f.interval_start
behind_lem f g l h =
    let later : f.interval_start +ℤ pos 0 ≤ℤ g.interval_start =
      omega (arith, h, start-le-end f l, +ℤ_parts f.interval_start (pos 0)) in
    let x = unix f.interval_start in
    let y = unix g.interval_start in
    omega (
      arith,
      unix_step f.interval_start g.interval_start 0 later,
      +ℤ_parts x (pos (0 / second)),
      -ℤ_parts y x,
    )

-- Files that do not overlap, and of which `Verify` accepts the lengths, have different segments.
pub want_from-AreApart :
    (f : File) (files : List File) (n : Want)
    → All HasLength (f ∷ files)
    → IsDisjoint (f ∷ files)
    → want_from (unix f.interval_start) (trunc_div f.interval second) (f ∷ files) [] ≡ wanted n
    → AreApart (unix f.interval_start) (trunc_div f.interval second) (f ∷ files)
want_from-AreApart f files n (l, ls) (d, ds) h =
    let origin = unix f.interval_start in
    let secs = trunc_div f.interval second in
    let (i, length) = length_lem origin 0 f.interval l in
    let is_pos : secs ≡ pos (i / second) = ap (λ x. trunc_div x second) length in
    let (e, z, rest) = want_from_step origin secs f files [] n h in
    let nonzero : 0 < i / second = let z' = rw is_pos at z in ground arith in
    let own : pos 0 ≤ℤ origin -ℤ origin = omega (arith, -ℤ_parts origin origin) in
    let secs_lem = lengths_lem origin secs (f ∷ files) [] n h in
    let lengths =
      subst (λ x. All (λ g. eq_ℤ (trunc_div g.interval second) x ≡ true) (f ∷ files)) is_pos
        secs_lem in
    let behind : All (IsBehind origin (i / second)) (f ∷ files) =
      (own, All-map _ _ (λ g later. behind_lem f g l later) files d) in
    subst (λ x. AreApart origin x (f ∷ files)) (sym is_pos)
      (apart_lem origin (i / second) (f ∷ files) nonzero (l, ls) lengths behind (d, ds))
