-- ===== src/Fies/Layout/Disjoint.antt =====
-- What a layout without an error says of the files.
use fie_importer.Prelude.{
  ◌≡◌, ap, inl, inr, List, [], ◌∷◌, ◌++◌, append_assoc, append-nil, arith, if◌then◌else◌,
  Bool-cases, All, pos, ◌≤ℤ◌, ◌<ℤ◌, +ℤ_parts,
}
use fie_importer.Prelude.{ltb_ℤ→lt}
use fie_importer.Prelude.Time.{Time, before, after}
use fie_importer.Fies.File.{File, end}
use fie_importer.Fies.Layout.{after, ◌∷◌, Time, overlap, gaps, check_from, check_layout}

-- The files in order, with no file starting before the end of the one before it.
abbrev pub IsChained : File → List File → Type 0
IsChained prev [] = Unit {0}
IsChained prev (cur ∷ rest) = (end prev ≤ℤ cur.interval_start) × IsChained cur rest

-- The gaps: where a file starts after the end of the one before it.
abbrev pub gaps_from : File → List File → List (Time × Time)
gaps_from prev [] = []
gaps_from prev (cur ∷ rest) =
    if after cur.interval_start (end prev)
    then (end prev, cur.interval_start) ∷ gaps_from cur rest
    else gaps_from cur rest

check_from_sound :
    (prev : File) (files : List File) (found gs : List (Time × Time))
    → check_from prev files found ≡ gaps gs
    → IsChained prev files × (gs ≡ found ++ gaps_from prev files)
unfolding check_from
check_from_sound prev [] found gs h = (tt, cc (append-nil found))
check_from_sound prev (cur ∷ rest) found gs h = ground (
  arith,
  check_from_sound cur rest found gs,
  check_from_sound cur rest (found ++ (end prev, cur.interval_start) ∷ []) gs,
  append_assoc found ((end prev, cur.interval_start) ∷ []) (gaps_from cur rest),
)

-- No two files of the list share an instant, and they are in order of time.
abbrev pub IsDisjoint : List File → Type 0
IsDisjoint [] = Unit {0}
IsDisjoint (f ∷ fs) = All (λ g. end f ≤ℤ g.interval_start) fs × IsDisjoint fs

-- `readMetadata` refuses an interval that is not positive.
abbrev pub HasLength : File → Type 0
HasLength f = pos 0 <ℤ f.interval

pub start-le-end : (f : File) → HasLength f → f.interval_start ≤ℤ end f
unfolding end
start-le-end f h = omega (arith, h, +ℤ_parts f.interval_start f.interval)

later :
    (t : Time) (prev : File) (files : List File)
    → t ≤ℤ end prev
    → IsChained prev files
    → All HasLength files
    → All (λ g. t ≤ℤ g.interval_start) files
later t prev [] le h lengths = tt
later t prev (cur ∷ rest) le (h, hs) (l, ls) =
    (omega arith, later t cur rest (omega (arith, start-le-end cur l)) hs ls)

IsDisjoint-of_chained :
    (prev : File) (files : List File)
    → IsChained prev files
    → All HasLength files
    → IsDisjoint (prev ∷ files)
IsDisjoint-of_chained prev [] h lengths = (tt, tt)
IsDisjoint-of_chained prev (cur ∷ rest) (h, hs) (l, ls) = (
  (h, later (end prev) cur rest (omega (arith, start-le-end cur l)) hs ls),
  IsDisjoint-of_chained cur rest hs ls,
)

abbrev pub gaps_of : List File → List (Time × Time)
gaps_of [] = []
gaps_of (f ∷ fs) = gaps_from f fs

-- Whatever warnings it returns are those.
gaps_exact :
    (files : List File) (gs : List (Time × Time))
    → check_layout files ≡ gaps gs
    → gs ≡ gaps_of files
unfolding check_layout
gaps_exact [] gs h = cc
gaps_exact (f ∷ fs) gs h = (check_from_sound f fs [] gs h).1

-- Two neighbours in the list.
abbrev pub AreNeighbours : File → File → List File → Type 0
AreNeighbours p c files = (xs : List File) × (ys : List File) × (files ≡ xs ++ p ∷ c ∷ ys)

check_from_overlap :
    (prev : File) (files : List File) (found : List (Time × Time)) (p c : File)
    → check_from prev files found ≡ overlap p c
    → AreNeighbours p c (prev ∷ files) × (c.interval_start <ℤ end p)
unfolding check_from
check_from_overlap prev [] found p c h = cc
check_from_overlap prev (cur ∷ rest) found p c h =
    elim (Bool-cases (before cur.interval_start (end prev))) [
      | inl bad ↦
          let e : overlap prev cur ≡ overlap p c = rw bad at h in
          let ep : prev ≡ p = cc in
          let ec : cur ≡ c = cc in
          (([], rest, cc), rw (← ep, ← ec) (ltb_ℤ→lt cur.interval_start (end prev) bad))
      | inr fine ↦
          let e = rw fine at h in
          let (xs, ys, q) = (check_from_overlap cur rest _ p c e).0 in
          ((prev ∷ xs, ys, ap (λ l. prev ∷ l) q), (check_from_overlap cur rest _ p c e).1)
    ]

-- An overlap that `CheckLayout` reports is one: the two files are neighbours in the list, and the
-- second starts before the first ends.
pub check_layout_overlap :
    (files : List File) (p c : File)
    → check_layout files ≡ overlap p c
    → AreNeighbours p c files × (c.interval_start <ℤ end p)
unfolding check_layout
check_layout_overlap [] p c h = cc
check_layout_overlap (f ∷ fs) p c h = check_from_overlap f fs [] p c h

-- A layout without an overlap is one of files that are disjoint.
pub check_layout-IsDisjoint :
    (files : List File) (found : List (Time × Time))
    → All HasLength files
    → check_layout files ≡ gaps found
    → IsDisjoint files
unfolding check_layout
check_layout-IsDisjoint [] found lengths h = tt
check_layout-IsDisjoint (f ∷ fs) found (l, ls) h =
    IsDisjoint-of_chained f fs (check_from_sound f fs [] found h).0 ls
