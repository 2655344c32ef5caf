-- ===== src/Progress/Drawn.antt =====
-- What a frame leaves on a terminal.
use fie_importer.Prelude.{
  ℕ, zero, suc, ◌+◌, ◌-◌, ◌≤◌, ◌≡◌, refl, sym, ap, ◌∙◌, true, List, [], ◌∷◌, ◌++◌, map, arith, ltb,
  length, drop, replicate, All,
}
use fie_importer.Prelude.Bytes.{Bytes}
use fie_importer.Progress.{
  Display, Code, line_up, line, plain_line, lines_of, up_if_any, redraw, ticked, draw,
}

-- A terminal that is wide enough for the lines: those above the cursor, the nearest first, and those from the
-- cursor on
pub record Screen : Type 0 where
  pub above : List Bytes
  pub below : List Bytes

unfoldable pub go_up : ℕ → List Bytes → List Bytes → Screen
go_up zero above below = record { above = above; below = below }
go_up (suc n) [] below = record { above = []; below = below }
go_up (suc n) (l ∷ above) below = go_up n above (l ∷ below)

unfoldable pub put_line : Bytes → Screen → Screen
put_line l s = record { above = l ∷ s.above; below = drop 1 s.below }

unfoldable pub show : List Code → Screen → Screen
unfolding go_up put_line
show [] s = s
show (line_up n ∷ cs) s = show cs (go_up n s.above s.below)
show (line l ∷ cs) s = show cs (put_line l s)
show (plain_line l ∷ cs) s = show cs (put_line l s)

-- Lines below others, the nearest first
abbrev pub under : List Bytes → List Bytes → List Bytes
under [] history = history
under (l ∷ lines) history = under lines (l ∷ history)

abbrev pub AreBlank : List Bytes → Type 0
AreBlank = All (λ l. l ≡ [])

-- The display's lines stand under what was there before, and nothing else.
pub record IsShown (d : Display) (lines history : List Bytes) (s : Screen) : Type 0 where
  pub is_drawn : d.drawn ≡ length lines
  pub stands : s.above ≡ under lines history
  pub blank : AreBlank s.below

show-append : (cs ds : List Code) (s : Screen) → show (cs ++ ds) s ≡ show ds (show cs s)
unfolding show
show-append [] ds s = refl
show-append (line_up n ∷ cs) ds s = show-append cs ds (go_up n s.above s.below)
show-append (line l ∷ cs) ds s = show-append cs ds (put_line l s)
show-append (plain_line l ∷ cs) ds s = show-append cs ds (put_line l s)

show-up_if_any : (n : ℕ) (s : Screen) → show (up_if_any n) s ≡ go_up n s.above s.below
unfolding show go_up
show-up_if_any zero s = refl
show-up_if_any (suc n) s = let e : ltb 0 (suc n) ≡ true = ground arith in rw (up_if_any, e) refl

go_up_last :
    (n : ℕ) (l : Bytes) (history below above now : List Bytes)
    → go_up n above now ≡ record { above = l ∷ history; below = below }
    → go_up (suc n) above now ≡ record { above = history; below = l ∷ below }
unfolding go_up
go_up_last zero l history below [] now h = absurd (cc)
go_up_last zero l history below (x ∷ above) now h =
    let up : x ∷ above ≡ l ∷ history = ap (λ s. s.above) h in
    let down : now ≡ below = ap (λ s. s.below) h in cc
go_up_last (suc n) l history below [] now h = absurd (cc)
go_up_last (suc n) l history below (x ∷ above) now h =
    go_up_last n l history below above (x ∷ now) h

-- Going up by the lines that stand under others
go_up-under :
    (lines history below : List Bytes)
    → go_up (length lines) (under lines history) below
      ≡ record { above = history; below = lines ++ below }
unfolding go_up
go_up-under [] history below = refl
go_up-under (l ∷ lines) history below =
    go_up_last (length lines) l history (lines ++ below) (under lines (l ∷ history)) below
      (go_up-under lines (l ∷ history) below)

drop_nil : (n : ℕ) → drop {A = Bytes} n [] ≡ []
drop_nil zero = refl
drop_nil (suc n) = refl

show-line :
    (lines above below : List Bytes)
    → show (map line lines) (record { above = above; below = below })
      ≡ record { above = under lines above; below = drop (length lines) below }
unfolding show put_line
show-line [] above below = refl
show-line (l ∷ lines) above [] = show-line lines (l ∷ above) [] ∙ rw (drop_nil (length lines)) refl
show-line (l ∷ lines) above (b ∷ below) = show-line lines (l ∷ above) below

drop-AreBlank : (n : ℕ) (ls : List Bytes) → AreBlank ls → AreBlank (drop n ls)
drop-AreBlank zero ls h = h
drop-AreBlank (suc n) [] h = tt
drop-AreBlank (suc n) (l ∷ ls) (e, h) = drop-AreBlank n ls h

-- Behind the lines of the frame before, and behind more blank ones, nothing is left.
left_blank :
    (m n : ℕ) (old blank : List Bytes)
    → length old ≤ m + n
    → AreBlank blank
    → AreBlank (drop n (drop m (old ++ blank)))
left_blank m n [] blank h b = drop-AreBlank n _ (drop-AreBlank m blank b)
left_blank (suc m) n (l ∷ old) blank h b = left_blank m n old blank (omega arith) b
left_blank zero (suc n) (l ∷ old) blank h b = left_blank zero n old blank (omega arith) b
left_blank zero zero (l ∷ old) blank h b = absurd (omega arith)

AreBlank-replicate : (n : ℕ) (ls : List Bytes) → AreBlank ls → AreBlank (replicate n [] ++ ls)
AreBlank-replicate zero ls h = h
AreBlank-replicate (suc n) ls h = (refl, AreBlank-replicate n ls h)

length-replicate : (n : ℕ) → length (replicate {A = Bytes} n []) ≡ n
length-replicate zero = refl
length-replicate (suc n) = ap suc (length-replicate n)

-- A frame over the one before: where the cursor ends, and what is above and below it
show-redraw :
    (old lines history blank : List Bytes)
    → show (redraw (length old) lines) (record { above = under old history; below = blank })
      ≡ record {
        above = under lines history;
        below =
            replicate (length old - length lines) []
            ++ drop (length old - length lines) (drop (length lines) (old ++ blank));
      }
unfolding redraw
show-redraw old lines history blank =
    let extra = length old - length lines in
    let rest = drop (length lines) (old ++ blank) in
    let blanks : List Bytes = replicate extra [] in
    let size : length blanks ≡ extra = length-replicate extra in
    show-append (up_if_any (length old)) _ _
    ∙ ap (show (map line lines ++ (map line blanks ++ up_if_any extra)))
        (show-up_if_any (length old) _ ∙ go_up-under old history blank)
    ∙ show-append (map line lines) _ _
    ∙ ap (show (map line blanks ++ up_if_any extra)) (show-line lines history (old ++ blank))
    ∙ show-append (map line blanks) _ _
    ∙ ap (show (up_if_any extra)) (show-line blanks (under lines history) rest)
    ∙ show-up_if_any extra _
    ∙ ap (λ n. go_up n (under blanks (under lines history)) (drop (length blanks) rest)) (sym size)
    ∙ go_up-under blanks (under lines history) (drop (length blanks) rest)
    ∙ ap (λ n. record { above = under lines history; below = blanks ++ drop n rest }) size

-- If a display's lines stand on a terminal under what was there before, then `draw` leaves the lines of the new
-- frame in their place: what was there before is as it was, no line of the old frame is left, and the
-- display knows how many lines it has drawn.
pub draw-IsShown :
    (frame : List Bytes) (d : Display) (old history : List Bytes) (s : Screen)
    → d.tty ≡ true
    → IsShown d old history s
    → IsShown (draw frame d).1 (lines_of frame (ticked d)) history (show (draw frame d).0 s)
unfolding draw lines_of show
draw-IsShown frame d old history s on shown =
    let lines = lines_of frame (ticked d) in
    let drawn = shown.is_drawn in
    let at : s ≡ record { above = under old history; below = s.below } =
      ap (λ a. record { above = a; below = s.below }) shown.stands in
    let gone : show (redraw d.drawn lines) s ≡ _ =
      ap (λ n. show (redraw n lines) s) drawn
      ∙ ap (show (redraw (length old) lines)) at
      ∙ show-redraw old lines history s.below in
    rw (on, gone)
      (record {
        is_drawn = refl;
        stands = refl;
        blank = AreBlank-replicate (length old - length lines) _ (
            left_blank (length lines) (length old - length lines) old s.below (omega arith)
              shown.blank);
      })
