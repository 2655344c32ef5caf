-- ===== src/Fies/Source/Planned.antt =====
-- The files that `Plan` returns, and their numbers of rows.
use fie_importer.Prelude.{
  ℕ, ◌≡◌, refl, sym, ap, ◌∙◌, Option, none, some, List, [], ◌∷◌, length, All,
}
use fie_importer.Fies.File.{File}
use fie_importer.Fies.Window.Rows.{IsPlanned}
use fie_importer.Fies.Source.{Sourced, sourced, rejected, counted, plan}

module _ {A : Type 0} (rows_of : File → List A)
    (same : (f : File) (n : ℕ) → rows_of (record f { rows = n }) ≡ rows_of f)
    (count : File → Option ℕ)
    (right : (f : File) (n : ℕ) → count f ≡ some n → n ≡ length (rows_of f)) where
  counted-IsPlanned :
      (f : File) (n : Option ℕ) (rest : Sourced (List File)) (planned : List File)
      → count f ≡ n
      → ((files : List File) → rest ≡ sourced files → All (IsPlanned rows_of) files)
      → counted f n rest ≡ sourced planned
      → All (IsPlanned rows_of) planned
  counted-IsPlanned f none rest planned e before h = cc
  counted-IsPlanned f (some n) (rejected x) planned e before h = cc
  counted-IsPlanned f (some n) (sourced files) planned e before h =
      let whole : record f { rows = n } ∷ files ≡ planned = cc in
      rw (← whole) (ap length (same f n) ∙ sym (right f n e), before files refl)

  -- Every file of a plan has as many rows as it says.
  pub plan-IsPlanned :
      (files planned : List File)
      → plan count files ≡ sourced planned
      → All (IsPlanned rows_of) planned
  unfolding plan
  plan-IsPlanned [] planned h = let nothing : [] ≡ planned = cc in rw (← nothing) tt
  plan-IsPlanned (f ∷ files) planned h =
      counted-IsPlanned f (count f) (plan count files) planned refl
        (λ rest e. plan-IsPlanned files rest e) h
