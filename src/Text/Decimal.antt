-- ===== src/Text/Decimal.antt =====
-- `strconv.FormatUint(n, 10)`, and `strconv.ParseUint(s, 10, bits)` with its range.
pub mod RoundTrip
use fie_importer.Prelude.{
  ℕ, zero, suc, ◌+◌, ◌-◌, ◌*◌, ◌/◌, ◌%◌, Bool, ◌&&◌, Option, none, some, [], ◌∷◌, ltb, leb, ◌==◌,
  if◌then◌else◌,
}
use fie_importer.Prelude.Bytes.{Bytes}

-- The digits of n in front of `out`; each round takes one digit. The fuel n is enough.
unfoldable pub digits : ℕ → ℕ → Bytes → Bytes
digits zero n out = (b'0' + n % 10) ∷ out
digits (suc fuel) n out =
    let rest = digits fuel (n / 10) ((b'0' + n % 10) ∷ out) in
    if ltb n 10 then (b'0' + n % 10) ∷ out else rest

unfoldable pub format_uint : ℕ → Bytes
unfolding digits
format_uint n = digits n n []

unfoldable pub is_digit : ℕ → Bool
is_digit c = leb b'0' c && leb c b'9'

-- The value so far is n; `none` is a syntax error or a value out of range.
unfoldable pub scan : ℕ → ℕ → Bytes → Option ℕ
unfolding is_digit
scan top n [] = some n
scan top n (c ∷ s) =
    let n' = n * 10 + (c - b'0') in
    let rest = scan top n' s in if is_digit c && leb n' top then rest else none

-- `top` is the largest value of the type, 2³² - 1 or 2⁶⁴ - 1.
unfoldable pub parse_uint : ℕ → Bytes → Option ℕ
unfolding scan
parse_uint top [] = none
parse_uint top (c ∷ s) = scan top 0 (c ∷ s)

-- `strconv.ParseInt(s, 10, 64)` followed by the test for a positive value: `none` for an error, zero
-- or a negative number.
unfoldable pub parse_positive : ℕ → Bytes → Option ℕ
unfolding parse_uint
parse_positive top [] = none
parse_positive top (c ∷ s) = elim (if c == b'+' then parse_uint top s else parse_uint top (c ∷ s)) [
  | none ↦ none
  | some n ↦ if n == 0 then none else some n
]
