-- ===== src/Prelude/Double.antt =====
-- Go's float64, as far as the program uses it: comparisons with whole numbers, and the division and the
-- multiplication of IEEE 754, whose results are rounded to 53 bits, half to even.
pub mod Near
use fie_importer.Prelude.{
  ℕ, zero, suc, ◌+◌, ◌*◌, ◌/◌, ◌%◌, ◌^◌, Bool, true, false, not, ◌||◌, ◌==◌, ltb, leb,
}

-- NaN, an infinity, or n / 2ᵏ with a sign; `true` is the negative one.
pub data Double : Type 0 where
  nan : Double
  infinite : Bool → Double
  number : Bool → ℕ → ℕ → Double

-- `x == 0`
abbrev pub is_nought : Double → Bool
is_nought nan = false
is_nought (infinite s) = false
is_nought (number s n k) = n == 0

-- `x < c`
abbrev pub is_below : Double → ℕ → Bool
is_below nan c = false
is_below (infinite s) c = s
is_below (number true n k) c = ltb 0 n || ltb 0 c
is_below (number false n k) c = ltb n (c * 2 ^ k)

-- `x > c`
abbrev pub is_above : Double → ℕ → Bool
is_above nan c = false
is_above (infinite s) c = not s
is_above (number true n k) c = false
is_above (number false n k) c = ltb (c * 2 ^ k) n

-- `x <= c`
abbrev pub is_at_most : Double → ℕ → Bool
is_at_most nan c = false
is_at_most (infinite s) c = s
is_at_most (number s n k) c = not (is_above (number s n k) c)

-- `q` or the next number, by whether less than half is left over q, or more
abbrev pub nearer : Bool → Bool → ℕ → ℕ
nearer true more q = q
nearer false true q = q + 1
nearer false false q = q + q % 2

-- The whole number that is nearest to a / b, and of two the even one
unfoldable pub nearest : ℕ → ℕ → ℕ
nearest a b = nearer (ltb (2 * (a % b)) b) (ltb b (2 * (a % b))) (a / b)

abbrev pub one_more : Bool → ℕ → ℕ
one_more true s = 0
one_more false s = suc s

-- How often to double a, so that a / b has 53 bits before the point; a double has no more than 1074 behind it.
unfoldable pub places : ℕ → ℕ → ℕ → ℕ
places zero a b = 0
places (suc more) a b = one_more (leb (2 ^ 52 * b) a) (places more (2 * a) b)

-- a / b as a double, if it is below 2⁵³: the numerator, and the exponent of its denominator
unfoldable pub rounded : ℕ → ℕ → ℕ × ℕ
unfolding nearest places
rounded a b = let s = places 1074 a b in (nearest (a * 2 ^ s) b, s)
