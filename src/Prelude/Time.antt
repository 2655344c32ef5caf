-- ===== src/Prelude/Time.antt =====
-- Go's `time.Time` and `time.Duration`: nanoseconds, times counted from the zero time (year 1, UTC).
use fie_importer.Prelude.{
  ◌-◌, suc, ◌^◌, sub_ℕ, min, ℕ, ◌*◌, ◌/◌, Bool, ℤ, pos, negsuc, ltb_ℤ, ◌-ℤ◌, ◌==◌, false,
}

abbrev pub Time : Type 0
Time = ℤ

abbrev pub Duration : Type 0
Duration = ℤ

abbrev pub second : ℕ
second = 1_000_000_000

-- `time.Duration(n) * time.Second` for an n that is not negative.
abbrev pub seconds : ℕ → Duration
seconds n = pos (n * second)

-- `t.IsZero()`
abbrev pub is_zero : Time → Bool
is_zero (pos n) = n == 0
is_zero (negsuc n) = false

abbrev pub before : Time → Time → Bool
before a b = ltb_ℤ a b

abbrev pub after : Time → Time → Bool
after a b = ltb_ℤ b a

-- Division that rounds down, for `Unix()`, which reads the whole seconds below a time.
abbrev pub floor_div : ℤ → ℕ → ℤ
floor_div (pos n) d = pos (n / d)
floor_div (negsuc n) d = negsuc (n / d)

-- The seconds from the zero time to 1970-01-01.
abbrev pub unix_epoch : ℕ
unix_epoch = 62135596800

unfoldable pub unix : Time → ℤ
unix t = floor_div t second -ℤ pos unix_epoch

-- Go's division, which rounds towards zero, as in `d / time.Second`.
abbrev pub trunc_div : ℤ → ℕ → ℤ
trunc_div (pos n) d = pos (n / d)
trunc_div (negsuc n) d = sub_ℕ 0 (suc n / d)

abbrev pub max_int64 : ℕ
max_int64 = 2 ^ 63 - 1

-- A result that does not fit a `time.Duration` becomes the nearest one that does.
abbrev pub saturate : ℤ → Duration
saturate (pos n) = pos (min n max_int64)
saturate (negsuc n) = negsuc (min n max_int64)

-- `a.Sub(b)`
unfoldable pub sub_time : Time → Time → Duration
sub_time a b = saturate (a -ℤ b)
