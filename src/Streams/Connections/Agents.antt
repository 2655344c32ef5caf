-- ===== src/Streams/Connections/Agents.antt =====
-- `eventsByAgent`: the events of each agent in their order.
use fie_importer.Prelude.{
  ◌≡◌, refl, sym, ap, ◌∙◌, inl, inr, Bool, false, List, [], ◌∷◌, ◌++◌, append_assoc, append-nil,
  arith, Bool-cases, keep_if,
}
use fie_importer.Prelude.Bytes.{Bytes}
use fie_importer.Net.{bytes_eq, bytes_eq→eq, bytes_eq_comm}
use fie_importer.Streams.Connections.{ConnectionEvent, ByAgent, add_event, add_events, events_of}

events_of-add_event :
    (id : Bytes) (e : ConnectionEvent) (m : ByAgent)
    → events_of id (add_event e m)
      ≡ events_of id m ++ keep_if (λ x. bytes_eq id x.agent_id) (e ∷ [])
unfolding events_of add_event
events_of-add_event id e [] = ground arith
events_of-add_event id e ((x, es) ∷ m) = elim (Bool-cases (bytes_eq e.agent_id x)) [
  | inl a ↦
      let same = ap (λ i. bytes_eq id i) (bytes_eq→eq e.agent_id x a) in
      elim (Bool-cases (bytes_eq id x)) [
        | inl f ↦ let own = same ∙ f in rw (keep_if, a, f, own) refl
        | inr f ↦ let own = same ∙ f in rw (keep_if, a, f, own) (sym (append-nil (events_of id m)))
      ]
  | inr a ↦ elim (Bool-cases (bytes_eq id x)) [
    | inl f ↦
        let other : bytes_eq id e.agent_id ≡ false =
          ap (λ i. bytes_eq i e.agent_id) (bytes_eq→eq id x f) ∙ bytes_eq_comm x e.agent_id ∙ a in
        rw (keep_if, a, f, other) (sym (append-nil es))
    | inr f ↦ rw (a, f) (events_of-add_event id e m)
  ]
]

keep_if-cons {ℓ} :
    {A : Type ℓ} (p : A → Bool) (x : A) (xs : List A)
    → keep_if p (x ∷ []) ++ keep_if p xs ≡ keep_if p (x ∷ xs)
keep_if-cons p x xs = elim (Bool-cases (p x)) [
  | inl e ↦ rw (keep_if, e) refl
  | inr e ↦ rw (keep_if, e) refl
]

pub events_of-add_events :
    (id : Bytes) (m : ByAgent) (es : List ConnectionEvent)
    → events_of id (add_events m es) ≡ events_of id m ++ keep_if (λ x. bytes_eq id x.agent_id) es
unfolding add_events
events_of-add_events id m [] = sym (append-nil _)
events_of-add_events id m (e ∷ es) =
    let same = λ (x : ConnectionEvent). bytes_eq id x.agent_id in
    events_of-add_events id (add_event e m) es
    ∙ ap (λ l. l ++ keep_if same es) (events_of-add_event id e m)
    ∙ append_assoc (events_of id m) _ _
    ∙ ap (λ l. events_of id m ++ l) (keep_if-cons same e es)
