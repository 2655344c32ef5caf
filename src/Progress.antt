-- ===== src/Progress.antt =====
-- internal/progress/progress.go: what a display draws on a terminal, and its window of samples. The frame is a
-- parameter, a list of lines: its figures are floating-point numbers. What is written is kept as codes.
pub mod Drawn
mod Tests
use fie_importer.Prelude.{
  ℕ, ◌+◌, ◌-◌, ◌%◌, Bool, not, none, some, List, [], ◌∷◌, ◌++◌, map, ltb, if◌then◌else◌, length,
  is_empty, get_elem?, replicate, ℤ, ltb_ℤ,
}
use fie_importer.Prelude.Bytes.{Bytes, codes}
use fie_importer.Prelude.Time.{Time, Duration, seconds, sub_time, is_zero}
use fie_importer.Text.Shell.{join}
use fie_importer.Pds.Reader.{trim_space}

-- The fields of `Display` that `draw` reads or sets
pub record Display : Type 0 where
  pub tty : Bool
  pub color : Bool
  pub phase : Bytes
  pub start : Time
  pub drawn : ℕ
  pub tick : ℕ

-- What `draw` writes: "\x1b[%dA", the cursor goes up; "\x1b[2K", a text and "\n", a line is replaced; and
-- a plain line
pub data Code : Type 0 where
  line_up : ℕ → Code
  line : Bytes → Code
  plain_line : Bytes → Code

abbrev pub cyan : Bytes
cyan = 27 ∷ codes "[36m"

abbrev pub off : Bytes
off = 27 ∷ codes "[0m"

unfoldable pub style : Display → Bytes → Bytes → Bytes
style d code s = if d.color then code ++ s ++ off else s

-- The third bytes of the ten signs of `spinner`, which all begin with 226 and 160 in UTF-8
abbrev pub spinner : List ℕ
spinner = 139 ∷ 153 ∷ 185 ∷ 184 ∷ 188 ∷ 180 ∷ 166 ∷ 167 ∷ 135 ∷ 143 ∷ []

-- `spinner[i]`, where `i` is less than ten
unfoldable pub spinner_at : ℕ → Bytes
spinner_at i = elim (get_elem? spinner i) [ none ↦ [] | some b ↦ 226 ∷ 160 ∷ b ∷ [] ]

-- The lines of one call, of a frame that `d.frame` would give
unfoldable pub lines_of : List Bytes → Display → List Bytes
unfolding style spinner_at
lines_of frame d =
    if not (is_empty d.phase)
    then (style d cyan (spinner_at (d.tick % length spinner)) ++ codes " " ++ d.phase) ∷ []
    else if not (is_zero d.start)
    then frame
    else []

abbrev pub up_if_any : ℕ → List Code
up_if_any n = if ltb 0 n then line_up n ∷ [] else []

-- The text that is built for a terminal, with `extra` lines more in the frame before
unfoldable pub redraw : ℕ → List Bytes → List Code
redraw drawn lines =
    let extra = drawn - length lines in
    up_if_any drawn ++ (map line lines ++ (map line (replicate extra []) ++ up_if_any extra))

abbrev pub ticked : Display → Display
ticked d = record d { tick = d.tick + 1 }

unfoldable pub draw : List Bytes → Display → List Code × Display
draw frame d =
    let lines = lines_of frame (ticked d) in
    if not d.tty
    then (
      if is_empty lines then [] else plain_line (trim_space (join lines (codes " | "))) ∷ [],
      ticked d,
    )
    else (redraw d.drawn lines, record (ticked d) { drawn = length lines })

pub record Sample : Type 0 where
  pub at : Time
  pub sent : ℤ

-- The loop of `rate`, which drops the first sample while the second is over three seconds old
unfoldable pub drop_old : Time → List Sample → List Sample
drop_old now [] = []
drop_old now (a ∷ []) = a ∷ []
drop_old now (a ∷ b ∷ []) = a ∷ b ∷ []
drop_old now (a ∷ b ∷ c ∷ samples) =
    let rest = drop_old now (b ∷ c ∷ samples) in
    if ltb_ℤ (seconds 3) (sub_time now b.at) then rest else a ∷ b ∷ c ∷ samples

-- `d.samples` behind a call of `rate`
unfoldable pub sampled : Time → ℤ → List Sample → List Sample
unfolding drop_old
sampled now sent samples = drop_old now (samples ++ (record { at = now; sent = sent }) ∷ [])
