-- ===== src/Text/Decimal/RoundTrip.antt =====
-- Every number is read back from its decimal text.
use fie_importer.Prelude.{
  ℕ, zero, suc, ◌+◌, ◌-◌, ◌*◌, ◌/◌, ◌%◌, ◌≤◌, ◌<◌, ◌≡◌, refl, sym, ap, ◌∙◌, false, some, [], ◌∷◌,
  ◌++◌, append_assoc, arith, is_empty,
}
use fie_importer.Prelude.Bytes.{Bytes}
use native.Mathlib.Decide.{dec_lt}
use fie_importer.Text.Decimal.{digits, format_uint, scan, parse_uint}

pub digits_small : (fuel n : ℕ) (out : Bytes) → n < 10 → digits fuel n out ≡ (b'0' + n % 10) ∷ out
unfolding digits
digits_small zero n out h = refl
digits_small (suc fuel) n out h = ground arith

digits_large :
    (fuel n : ℕ) (out : Bytes)
    → 10 ≤ n
    → digits (suc fuel) n out ≡ digits fuel (n / 10) ((b'0' + n % 10) ∷ out)
unfolding digits
digits_large fuel n out h = ground arith

-- Enough fuel makes no difference.
digits_fuel : (f g n : ℕ) (out : Bytes) → n ≤ f → n ≤ g → digits f n out ≡ digits g n out
digits_fuel zero g n out hf hg =
    digits_small zero n out (omega arith) ∙ sym (digits_small g n out (omega arith))
digits_fuel (suc f) zero n out hf hg =
    digits_small (suc f) n out (omega arith) ∙ sym (digits_small zero n out (omega arith))
digits_fuel (suc f) (suc g) n out hf hg = elim (dec_lt n 10) [
  | yes h ↦ digits_small (suc f) n out h ∙ sym (digits_small (suc g) n out h)
  | no h ↦
      digits_large f n out (omega arith)
      ∙ digits_fuel f g (n / 10) ((b'0' + n % 10) ∷ out) (omega arith) (omega arith)
      ∙ sym (digits_large g n out (omega arith))
]

digits-append : (fuel n : ℕ) (out : Bytes) → digits fuel n out ≡ digits fuel n [] ++ out
digits-append zero n out = unfold digits in refl
digits-append (suc fuel) n out = elim (dec_lt n 10) [
  | yes h ↦ rw (digits_small (suc fuel) n out h, digits_small (suc fuel) n [] h)
  | no h ↦ rw (
    digits_large fuel n out (omega arith),
    digits_large fuel n [] (omega arith),
    digits-append fuel (n / 10) ((b'0' + n % 10) ∷ out),
    digits-append fuel (n / 10) ((b'0' + n % 10) ∷ []),
    append_assoc,
  )
]

pub format_uint_small : (n : ℕ) → n < 10 → format_uint n ≡ (b'0' + n % 10) ∷ []
unfolding format_uint
format_uint_small n h = digits_small n n [] h

-- The last digit of a number stands behind the digits of its tenth.
pub format_uint_large :
    (n : ℕ) → 10 ≤ n → format_uint n ≡ format_uint (n / 10) ++ (b'0' + n % 10) ∷ []
unfolding format_uint
format_uint_large zero h = absurd (omega arith)
format_uint_large (suc n) h =
    digits_large n (suc n) [] h
    ∙ digits_fuel n (suc n / 10) (suc n / 10) _ (omega arith) (omega arith)
    ∙ digits-append (suc n / 10) (suc n / 10) ((b'0' + suc n % 10) ∷ [])

snoc-nonempty : (s : Bytes) (c : ℕ) → is_empty (s ++ c ∷ []) ≡ false
snoc-nonempty [] c = refl
snoc-nonempty (d ∷ s) c = refl

scan_digit :
    (top n d : ℕ) → d < 10 → n * 10 + d ≤ top → scan top n ((b'0' + d) ∷ []) ≡ some (n * 10 + d)
unfolding scan
scan_digit top n d h fits = ground arith

scan-append :
    (top n m : ℕ) (s t : Bytes) → scan top n s ≡ some m → scan top n (s ++ t) ≡ scan top m t
unfolding scan
scan-append top n m [] t h = ap (λ k. scan top k t) (cc)
scan-append top n m (c ∷ s) t h = ground (arith, scan-append top (n * 10 + (c - b'0')) m s t)

scan_small : (top n : ℕ) → n < 10 → n ≤ top → scan top 0 (format_uint n) ≡ some n
scan_small top n h fits =
    let e : 0 * 10 + n % 10 ≡ n = omega arith in
    rw (format_uint_small n h) (scan_digit top 0 (n % 10) (omega arith) (omega arith) ∙ ap some e)

scan-format_uint : (top fuel n : ℕ) → n ≤ fuel → n ≤ top → scan top 0 (format_uint n) ≡ some n
scan-format_uint top zero n hf fits = scan_small top n (omega arith) fits
scan-format_uint top (suc fuel) n hf fits = elim (dec_lt n 10) [
  | yes h ↦ scan_small top n h fits
  | no h ↦
      let before = scan-format_uint top fuel (n / 10) (omega arith) (omega arith) in
      let e : n / 10 * 10 + n % 10 ≡ n = omega arith in
      rw (format_uint_large n (omega arith)) (
        scan-append top 0 (n / 10) (format_uint (n / 10)) _ before
        ∙ scan_digit top (n / 10) (n % 10) (omega arith) (omega arith)
        ∙ ap some e)
]

pub format_uint-nonempty : (n : ℕ) → is_empty (format_uint n) ≡ false
format_uint-nonempty n = elim (dec_lt n 10) [
  | yes h ↦ rw (format_uint_small n h)
  | no h ↦ rw (format_uint_large n (omega arith)) (snoc-nonempty (format_uint (n / 10)) _)
]

parse_uint-scan : (top : ℕ) (s : Bytes) → is_empty s ≡ false → parse_uint top s ≡ scan top 0 s
unfolding parse_uint
parse_uint-scan top [] h = cc
parse_uint-scan top (c ∷ s) h = refl

-- A number of the type is read back from its decimal text.
pub parse_uint-format_uint : (top n : ℕ) → n ≤ top → parse_uint top (format_uint n) ≡ some n
parse_uint-format_uint top n h =
    parse_uint-scan top _ (format_uint-nonempty n) ∙ scan-format_uint top n n (omega arith) h
