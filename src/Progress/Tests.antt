-- ===== src/Progress/Tests.antt =====
-- A display on a terminal.
use fie_importer.Prelude.{ℕ, ◌≡◌, refl, true, false, List, [], ◌∷◌, ℤ, pos, ◌-ℤ◌}
use fie_importer.Prelude.Bytes.{Bytes, codes}
use fie_importer.Prelude.Time.{seconds, sub_time}
use fie_importer.Progress.{
  Display, Sample, line_up, line, lines_of, redraw, ticked, draw, drop_old, sampled,
}
use fie_importer.Progress.Drawn.{Screen, go_up, put_line, show, IsShown, draw-IsShown}

abbrev display : Display
display = record { tty = true; color = false; phase = []; start = seconds 60; drawn = 3; tick = 7 }

abbrev header : Bytes
header = codes "upload-fies"

abbrev old_lines : List Bytes
old_lines = codes "50%" ∷ codes "10 rows/s" ∷ codes "file 1/2" ∷ []

abbrev new_lines : List Bytes
new_lines = codes "100%" ∷ codes "12 rows/s" ∷ []

abbrev screen : Screen
screen = record {
  above = codes "file 1/2" ∷ codes "10 rows/s" ∷ codes "50%" ∷ header ∷ [];
  below = [] ∷ [];
}

frame_replaced :
    (draw new_lines display).0
    ≡ line_up 3 ∷ line (codes "100%") ∷ line (codes "12 rows/s") ∷ line [] ∷ line_up 1 ∷ []
unfolding draw redraw lines_of
frame_replaced = refl

draw_shows :
    show (draw new_lines display).0 screen
    ≡ record { above = codes "12 rows/s" ∷ codes "100%" ∷ header ∷ []; below = [] ∷ [] ∷ [] }
unfolding draw redraw lines_of show go_up put_line
draw_shows = refl

draw-IsShown_example :
    IsShown
      (draw new_lines display).1
      (lines_of new_lines (ticked display))
      (header ∷ [])
      (show (draw new_lines display).0 screen)
draw-IsShown_example =
    draw-IsShown new_lines display old_lines (header ∷ []) screen refl
      (record { is_drawn = refl; stands = refl; blank = (refl, tt) })

abbrev sample : ℕ → ℤ → Sample
sample n sent = record { at = seconds n; sent = sent }

sampled_drops :
    sampled (seconds 6) (pos 70) (sample 0 (pos 0) ∷ sample 1 (pos 10) ∷ sample 3 (pos 30) ∷ [])
    ≡ sample 1 (pos 10) ∷ sample 3 (pos 30) ∷ sample 6 (pos 70) ∷ []
unfolding sampled drop_old sub_time ◌-ℤ◌
sampled_drops = refl
