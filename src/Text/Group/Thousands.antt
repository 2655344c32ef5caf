-- ===== src/Text/Group/Thousands.antt =====
-- What `group` prints.
use fie_importer.Prelude.{
  ℕ, suc, ◌+◌, ◌/◌, ◌%◌, ◌≤◌, ◌<◌, ◌≡◌, refl, ap, inl, inr, false, [], ◌∷◌, ◌++◌, append_assoc,
  arith, ltb, if◌then◌else◌, Bool-cases, ltb→lt, length, is_empty, length-append, ℤ, pos, pos_part,
}
use native.Mathlib.Decide.{dec_lt}
use fie_importer.Prelude.Bytes.{Bytes}
use fie_importer.Text.Decimal.{format_uint}
use fie_importer.Text.Decimal.RoundTrip.{format_uint_small, format_uint_large, format_uint-nonempty}
use fie_importer.Text.Group.{separate, group_digits, group}

separate_three :
    (s : Bytes) (a b c : ℕ) → separate (s ++ a ∷ b ∷ c ∷ []) ≡ separate s ++ b',' ∷ a ∷ b ∷ c ∷ []
unfolding separate
separate_three [] a b c = refl
separate_three (d ∷ s) a b c =
    let e : suc (length (s ++ a ∷ b ∷ c ∷ [])) % 3 ≡ suc (length s) % 3 =
      omega (arith, length-append s (a ∷ b ∷ c ∷ [])) in
    rw (e, separate_three s a b c, append_assoc)

group_digits_three :
    (s : Bytes) (a b c : ℕ)
    → is_empty s ≡ false
    → group_digits (s ++ a ∷ b ∷ c ∷ []) ≡ group_digits s ++ b',' ∷ a ∷ b ∷ c ∷ []
unfolding group_digits
group_digits_three [] a b c h = cc
group_digits_three (d ∷ s) a b c h = ap (λ l. d ∷ l) (separate_three s a b c)

group_digits_short : (n : ℕ) → n < 1000 → group_digits (format_uint n) ≡ format_uint n
unfolding group_digits separate
group_digits_short n h = elim (dec_lt n 10) [
  | yes one ↦ rw (format_uint_small n one)
  | no more ↦ elim (dec_lt n 100) [
    | yes two ↦ rw (format_uint_large n (omega arith), format_uint_small (n / 10) (omega arith))
    | no three ↦ rw (
      format_uint_large n (omega arith),
      format_uint_large (n / 10) (omega arith),
      format_uint_small (n / 10 / 10) (omega arith),
    )
  ]
]

-- The last three digits of a number, with leading zeros.
abbrev pub last_three : ℕ → Bytes
last_three n = (b'0' + n / 100 % 10) ∷ (b'0' + n / 10 % 10) ∷ (b'0' + n % 10) ∷ []

format_uint_thousands : (n : ℕ) → 1000 ≤ n → format_uint n ≡ format_uint (n / 1000) ++ last_three n
format_uint_thousands n h =
    let e : n / 10 / 10 ≡ n / 100 = omega arith in
    let e' : n / 10 / 10 / 10 ≡ n / 1000 = omega arith in
    rw (
      format_uint_large n (omega arith),
      format_uint_large (n / 10) (omega arith),
      format_uint_large (n / 10 / 10) (omega arith),
      e',
      e,
      append_assoc,
      append_assoc,
    )

-- `group` prints a number below a thousand as its digits, and a larger one as the group of its
-- thousands, a comma and its last three digits; a negative number is printed as 0.
pub group_lem :
    (n : ℤ)
    → group n ≡ (
        if ltb (pos_part n) 1000
        then format_uint (pos_part n)
        else group (pos (pos_part n / 1000)) ++ b',' ∷ last_three (pos_part n))
unfolding group
group_lem n = elim (Bool-cases (ltb (pos_part n) 1000)) [
  | inl small ↦ rw small (group_digits_short (pos_part n) (ltb→lt (pos_part n) 1000 small))
  | inr large ↦
      rw (large, format_uint_thousands (pos_part n) (ground arith))
        (group_digits_three (format_uint (pos_part n / 1000)) _ _ _
          (format_uint-nonempty (pos_part n / 1000)))
]
