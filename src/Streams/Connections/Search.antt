-- ===== src/Streams/Connections/Search.antt =====
-- What the binary search of `AddressAt` finds in the events of an agent.
use fie_importer.Prelude.{
  ℕ, zero, suc, ◌+◌, ◌/◌, ◌≤◌, ◌<◌, ◌≡◌, sym, ◌∙◌, inl, inr, Bool, true, false, List, [], ◌∷◌,
  arith, ltb, leb, if◌then◌else◌, Bool-cases, ltb→lt, leb→le, length,
}
use fie_importer.Prelude.Time.{Time, before}
use fie_importer.Streams.Connections.{ConnectionEvent, search_loop, search}

-- A test that fails below `k` and holds from there on
abbrev pub Turns : (ℕ → Bool) → ℕ → ℕ → Type 0
Turns f k n = (i : ℕ) → i < n → f i ≡ leb k i

module _ (f : ℕ → Bool) (k n : ℕ) (turns : Turns f k n) where
  search_loop_lem :
      (fuel i j : ℕ) → i ≤ k → k ≤ j → j ≤ n → j ≤ i + fuel → search_loop f fuel i j ≡ k
  unfolding search_loop
  search_loop_lem zero i j hi hj hn enough = omega arith
  search_loop_lem (suc fuel) i j hi hj hn enough = elim (Bool-cases (ltb i j)) [
    | inr e ↦ rw (search_loop, e) (ground arith)
    | inl e ↦
        let lt = ltb→lt i j e in
        let inside : (i + j) / 2 < n = omega arith in
        elim (Bool-cases (f ((i + j) / 2))) [
          | inl t ↦
              let above : leb k ((i + j) / 2) ≡ true = sym (turns _ inside) ∙ t in
              rw (search_loop, e, t)
                (search_loop_lem fuel i ((i + j) / 2) hi (leb→le _ _ above) (omega arith)
                  (omega arith))
          | inr t ↦
              let below : leb k ((i + j) / 2) ≡ false = sym (turns _ inside) ∙ t in
              rw (search_loop, e, t)
                (search_loop_lem fuel (suc ((i + j) / 2)) j (ground arith) hj hn (omega arith))
        ]
  ]

  pub search_lem : k ≤ n → search n f ≡ k
  unfolding search
  search_lem h = search_loop_lem n 0 n (omega arith) h (omega arith) (omega arith)

-- The number of events in front that are before `t`
abbrev pub count_before : List ConnectionEvent → Time → ℕ
count_before [] t = 0
count_before (e ∷ es) t = if before e.time t then suc (count_before es t) else 0

pub count_before_le : (es : List ConnectionEvent) (t : Time) → count_before es t ≤ length es
count_before_le [] t = omega arith
count_before_le (e ∷ es) t = ground (arith, count_before_le es t)
