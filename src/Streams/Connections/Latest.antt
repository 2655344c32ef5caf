-- ===== src/Streams/Connections/Latest.antt =====
-- The event that `AddressAt` answers with.
use fie_importer.Prelude.{
  ◌≡◌, refl, sym, ap, ◌∙◌, ◌⊎◌, inl, inr, Bool, true, false, Option, none, some, List, [], ◌∷◌,
  arith, if◌then◌else◌, Bool-cases, length, is_empty, All, keep_if, Any, Any-map, All-of-keep_if,
  Any-of-keep_if,
}
use fie_importer.Prelude.Bytes.{Bytes}
use fie_importer.Prelude.Time.{Time, before}
use fie_importer.Prelude.Sort.{
  sort, IsSorted, sort-IsSorted, keep_if-IsSorted, All-of-sort, Any-of-sort,
}
use fie_importer.Net.{bytes_eq}
use fie_importer.Streams.Connections.{
  ConnectionEvent, Answer, no_events, not_yet, disconnected, connected, reply, equal, is_no_later,
  is_reached, reply_at, search, events_of, connection_stream, address_at,
}
use fie_importer.Streams.Connections.Agents.{events_of-add_events}
use fie_importer.Streams.Connections.Search.{count_before, count_before_le, search_lem}
use fie_importer.Streams.Connections.Answers.{
  answer_from, reply_at_lem, is_reached-Turns, answers_lem,
}

later_total : (e f : ConnectionEvent) → is_no_later e f ≡ false → is_no_later f e ≡ true
later_total e f h = ground arith

later_trans :
    (e f g : ConnectionEvent)
    → is_no_later e f ≡ true
    → is_no_later f g ≡ true
    → is_no_later e g ≡ true
later_trans e f g h k = ground arith

abbrev pub is_of : Bytes → ConnectionEvent → Bool
is_of id e = bytes_eq id e.agent_id

-- `e` is the last event of the agent that is not after `t`.
abbrev pub IsLastOf : List ConnectionEvent → Bytes → Time → ConnectionEvent → Type 0
IsLastOf es id t e =
    (is_of id e ≡ true)
    × (before t e.time ≡ false)
    × All (λ x. is_of id x ≡ true → (before t x.time ≡ true) ⊎ (before e.time x.time ≡ false)) es

-- What an answer says of the agent's events.
abbrev pub Explains : List ConnectionEvent → Bytes → Time → Answer → Type 0
Explains es id t no_events = All (λ x. is_of id x ≡ false) es
Explains es id t not_yet = All (λ x. is_of id x ≡ true → before t x.time ≡ true) es
Explains es id t (disconnected exact) =
    Any (λ e. IsLastOf es id t e × (e.address ≡ none) × (exact ≡ equal e.time t)) es
Explains es id t (connected ip exact) =
    Any (λ e. IsLastOf es id t e × (e.address ≡ some ip) × (exact ≡ equal e.time t)) es

module _ (es : List ConnectionEvent) (id : Bytes) (t : Time) where
  abbrev own : List ConnectionEvent
  own = keep_if (is_of id) (sort is_no_later es)

  nothing_kept :
      (xs : List ConnectionEvent) → keep_if (is_of id) xs ≡ [] → All (λ x. is_of id x ≡ false) xs
  nothing_kept [] h = tt
  nothing_kept (x ∷ xs) h = elim (Bool-cases (is_of id x)) [
    | inl e ↦ absurd (cc (rw (keep_if, e) at h))
    | inr e ↦ (e, nothing_kept xs (rw (keep_if, e) at h))
  ]

  no_reply :
      (a : Answer) (address : Option Bytes) (x : Bool)
      → (a ≡ no_events) ⊎ (a ≡ not_yet)
      → a ≡ reply address x
      → ⊥
  no_reply a none x (inl h) e = cc
  no_reply a none x (inr h) e = cc
  no_reply a (some ip) x (inl h) e = cc
  no_reply a (some ip) x (inr h) e = cc

  is_disconnected :
      (y x : Bool) (address : Option Bytes)
      → disconnected y ≡ reply address x
      → (address ≡ none) × (y ≡ x)
  is_disconnected y x none e = (refl, cc)
  is_disconnected y x (some ip) e = absurd (cc)

  is_connected :
      (i : Bytes) (y x : Bool) (address : Option Bytes)
      → connected i y ≡ reply address x
      → (address ≡ some i) × (y ≡ x)
  is_connected i y x none e = absurd (cc)
  is_connected i y x (some ip) e = (cc, cc)

  abbrev Replies : Answer → ConnectionEvent → Type 0
  Replies a e = IsLastOf es id t e × (a ≡ reply e.address (equal e.time t))

  none-Replies :
      (a : Answer) (xs : List ConnectionEvent)
      → (a ≡ no_events) ⊎ (a ≡ not_yet)
      → Any (Replies a) xs
      → ⊥
  none-Replies a [] h none_there = none_there
  none-Replies a (x ∷ xs) h (inl r) = no_reply a x.address (equal x.time t) h r.1
  none-Replies a (x ∷ xs) h (inr r) = none-Replies a xs h r

  Explains-reply : (a : Answer) → Any (Replies a) es → Explains es id t a
  Explains-reply no_events h = absurd (none-Replies no_events es (inl refl) h)
  Explains-reply not_yet h = absurd (none-Replies not_yet es (inr refl) h)
  Explains-reply (disconnected y) h =
      Any-map _ _
        (λ e r. let (empty, same) = is_disconnected y _ e.address r.1 in (r.0, empty, same)) es h
  Explains-reply (connected i y) h =
      Any-map _ _ (λ e r. let (held, same) = is_connected i y _ e.address r.1 in (r.0, held, same))
        es h

  own-IsSorted : IsSorted is_no_later own
  own-IsSorted =
      keep_if-IsSorted is_no_later (is_of id) _
        (sort-IsSorted is_no_later later_total later_trans es)

  All-own : (P : ConnectionEvent → Type 0) → All P own → All (λ x. is_of id x ≡ true → P x) es
  All-own P h = All-of-sort is_no_later _ es (All-of-keep_if (is_of id) P _ h)

  answer_own : reply_at own t (search (length own) (is_reached own t)) ≡ answer_from not_yet own t
  answer_own =
      ap (λ i. reply_at own t i)
        (search_lem (is_reached own t) (count_before own t) (length own)
          (is_reached-Turns own t own-IsSorted) (count_before_le own t))
      ∙ reply_at_lem own t

  own_events : events_of id (connection_stream es).by_agent ≡ own
  unfolding connection_stream events_of
  own_events = events_of-add_events id [] (sort is_no_later es)

  Explains-own : Explains es id t (answer_from not_yet own t)
  Explains-own = elim (answers_lem not_yet own t own-IsSorted) [
    | inl (same, after) ↦ rw same (All-own _ after)
    | inr one ↦ Explains-reply _ (
        Any-map _ _
          (λ e r. let ((before_t, all), same) = r.1 in ((r.0, before_t, All-own _ all), same)) es
          (Any-of-sort is_no_later _ es (Any-of-keep_if (is_of id) _ _ one)))
  ]

  nothing_own : own ≡ [] → All (λ x. is_of id x ≡ false) es
  nothing_own h = All-of-sort is_no_later _ es (nothing_kept (sort is_no_later es) h)

  reply_own :
      (l : List ConnectionEvent)
      → l ≡ own
      → Explains es id t (reply_at l t (search (length l) (is_reached l t)))
  reply_own l same = rw (same, answer_own) Explains-own

  Explains-all :
      (l : List ConnectionEvent)
      → l ≡ own
      → Explains es id t
          (if is_empty l then no_events else reply_at l t (search (length l) (is_reached l t)))
  Explains-all [] same = nothing_own (sym same)
  Explains-all (x ∷ xs) same = reply_own (x ∷ xs) same

  -- `AddressAt` answers with the last event of the agent that is not after the time asked for, however the
  -- events were ordered in the stream: its address, or that the agent is disconnected, and whether it is of
  -- that very time. Without an answer the agent has no event at all, or only later ones.
  pub address_at-Explains : Explains es id t (address_at (connection_stream es) id t)
  unfolding address_at
  address_at-Explains = Explains-all _ own_events
