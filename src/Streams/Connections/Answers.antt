-- ===== src/Streams/Connections/Answers.antt =====
-- The answer that `AddressAt` finds in the sorted events of one agent.
use fie_importer.Prelude.{
  ℕ, zero, suc, ◌≡◌, refl, ap, ◌∙◌, ◌⊎◌, inl, inr, true, false, List, [], ◌∷◌, arith, if◌then◌else◌,
  Bool-cases, length, All, Any, Any-map, Any-All, All-map,
}
use fie_importer.Prelude.Time.{Time, before}
use fie_importer.Prelude.Sort.{IsSorted}
use fie_importer.Streams.Connections.{
  ConnectionEvent, Answer, not_yet, reply, equal, is_no_later, is_reached, reply_at, reply_before,
}
use fie_importer.Streams.Connections.Search.{count_before, Turns}

-- The answer read from the front, where `prev` answers for what is further in front.
abbrev pub answer_from : Answer → List ConnectionEvent → Time → Answer
answer_from prev [] t = prev
answer_from prev (e ∷ es) t =
    if before e.time t
    then answer_from (reply e.address false) es t
    else if equal e.time t
    then reply e.address true
    else prev

-- `e` is not after `t`, and no event of `es` is between them.
abbrev IsLast : List ConnectionEvent → Time → ConnectionEvent → Type 0
IsLast es t e =
    (before t e.time ≡ false)
    × All (λ x. (before t x.time ≡ true) ⊎ (before e.time x.time ≡ false)) es

answer_from_behind :
    (p : ConnectionEvent) (es : List ConnectionEvent) (t : Time)
    → reply_at (p ∷ es) t (suc (count_before es t)) ≡ answer_from (reply p.address false) es t
unfolding reply_at reply_before
answer_from_behind p [] t = refl
answer_from_behind p (e ∷ es) t = elim (Bool-cases (before e.time t)) [
  | inl h ↦ rw h (answer_from_behind e es t)
  | inr h ↦ rw h refl
]

pub reply_at_lem :
    (es : List ConnectionEvent) (t : Time)
    → reply_at es t (count_before es t) ≡ answer_from not_yet es t
unfolding reply_at reply_before
reply_at_lem [] t = refl
reply_at_lem (e ∷ es) t = elim (Bool-cases (before e.time t)) [
  | inl h ↦ rw h (answer_from_behind e es t)
  | inr h ↦ rw h refl
]

late_event :
    (e : ConnectionEvent) (es : List ConnectionEvent) (t : Time)
    → All (λ x. is_no_later e x ≡ true) es
    → before e.time t ≡ false
    → (i : ℕ) → is_reached es t i ≡ true
unfolding is_reached
late_event e [] t h late i = refl
late_event e (x ∷ es) t (hx, h) late zero = ground arith
late_event e (x ∷ es) t (hx, h) late (suc i) = late_event e es t h late i

pub is_reached-Turns :
    (es : List ConnectionEvent) (t : Time)
    → IsSorted is_no_later es
    → Turns (is_reached es t) (count_before es t) (length es)
unfolding is_reached
is_reached-Turns [] t h i lt = absurd (omega arith)
is_reached-Turns (e ∷ es) t (he, h) zero lt = ground arith
is_reached-Turns (e ∷ es) t (he, h) (suc i) lt = elim (Bool-cases (before e.time t)) [
  | inl b ↦ rw b (is_reached-Turns es t h i (omega arith) ∙ ground arith)
  | inr b ↦ rw b (late_event e es t he b i ∙ ground arith)
]

-- What `answer_from` answers with
abbrev Answers : Answer → List ConnectionEvent → Time → Type 0
Answers prev es t =
    ((answer_from prev es t ≡ prev) × All (λ x. before t x.time ≡ true) es)
    ⊎ Any (λ e. IsLast es t e × (answer_from prev es t ≡ reply e.address (equal e.time t))) es

-- The events behind an event that is not before `t`
late_rest :
    (e : ConnectionEvent) (es : List ConnectionEvent) (t : Time)
    → before t e.time ≡ true
    → All (λ x. is_no_later e x ≡ true) es
    → All (λ x. before t x.time ≡ true) es
late_rest e es t h all = All-map _ _ (λ x later. ground arith) es all

at_or_after :
    (e x : ConnectionEvent) (t : Time)
    → equal e.time t ≡ true
    → is_no_later e x ≡ true
    → (before t x.time ≡ true) ⊎ (before e.time x.time ≡ false)
unfolding equal
at_or_after e x t h later = elim (Bool-cases (before t x.time)) [
  | inl a ↦ inl a
  | inr a ↦ inr (ground arith)
]

exact-IsLast :
    (e : ConnectionEvent) (es : List ConnectionEvent) (t : Time)
    → equal e.time t ≡ true
    → All (λ x. is_no_later e x ≡ true) es
    → IsLast (e ∷ es) t e
unfolding equal
exact-IsLast e es t h all =
    (ground arith, (inr (ground arith), All-map _ _ (λ x later. at_or_after e x t h later) es all))

pub answers_lem :
    (prev : Answer) (es : List ConnectionEvent) (t : Time)
    → IsSorted is_no_later es
    → Answers prev es t
answers_lem prev [] t h = inl (refl, tt)
answers_lem prev (e ∷ es) t (he, h) = elim (Bool-cases (before e.time t)) [
  | inl b ↦
      let late : before t e.time ≡ false = ground arith in
      elim (answers_lem (reply e.address false) es t h) [
        | inl (same, after) ↦ inr (
            inl (
              (late, (inr (ground arith), All-map _ _ (λ x a. inl a) es after)),
              rw (answer_from, b)
                  (same ∙ ap (λ x. reply e.address x) (unfold equal in ground arith)),
            ))
        | inr one ↦ inr (
            inr (
              Any-map _ _
                (λ x both.
                  let ((before_t, all), same) = both.0 in
                  ((before_t, (inr (ground arith), all)), rw (answer_from, b) same))
                es (Any-All _ _ es one he)))
      ]
  | inr b ↦ elim (Bool-cases (equal e.time t)) [
    | inl same ↦ inr (inl (exact-IsLast e es t same he, rw (answer_from, b, same) refl))
    | inr other ↦
        let late : before t e.time ≡ true = unfold equal in ground arith in
        inl (rw (answer_from, b, other) refl, (late, late_rest e es t late he))
  ]
]
