-- ===== src/Streams/Full/Sources.antt =====
-- What each FIE of the full stream is made of.
use fie_importer.Prelude.{
  ℕ, ◌+◌, ◌%◌, ◌^◌, ◌⊎◌, ◌==◌, true, false, All, All-map, ◌≡◌, refl, sym, ◌∙◌, inl, inr, Bool,
  Option, none, some, List, [], ◌∷◌, Option-cases, Any, Any-map,
}
use fie_importer.Prelude.Bytes.{Bytes}
use fie_importer.Streams.Connections.{
  ConnectionEvent, ConnectionStream, Answer, no_events, not_yet, disconnected, connected,
  address_at, connection_stream,
}
use fie_importer.Prelude.Time.{before}
use fie_importer.Streams.Connections.Latest.{is_of, IsLastOf, Explains, address_at-Explains}
use fie_importer.Streams.Compressed.{CompressedFie, next_number}
use fie_importer.Streams.Compressed.Numbered.{AreNumbered}
use fie_importer.Streams.Full.{
  Directive, Directives, FullFie, find_directive, directives_by_id, fie_of, capture_time_of,
  with_answer, with_directive, construct, fies,
}
use fie_importer.Streams.Full.Directives.{find_directive-IsOneOf, find_directive-none}
use fie_importer.Streams.Full.Times.{HasTimes, HasTime-delta, IsReply-info}

module _ (es : List ConnectionEvent) (pds : List Directive) where
  -- The FIE names the directive of the row's ID, and its source is the address of that directive's agent:
  -- the one with which it last connected before the capture, without a disconnection since.
  abbrev pub IsResolved : CompressedFie → FullFie → Type 0
  IsResolved row fie =
      (fie.capture_time ≡ capture_time_of row)
      × (fie.directive_id ≡ row.columns.probing_directive_id)
      × Any
          (λ pd.
            (pd.directive_id ≡ row.columns.probing_directive_id)
            × (fie.agent_id ≡ pd.agent_id)
            × (fie.destination_address ≡ pd.destination)
            × (fie.ip_version ≡ pd.ip_version)
            × (fie.protocol ≡ pd.protocol)
            × HasTimes row pd fie
            × Any
                (λ e.
                  IsLastOf es pd.agent_id (capture_time_of row) e
                  × (e.address ≡ some fie.source_address))
                es)
          pds

  -- No directive has the row's ID, or the agent of one has no address at the capture: it had no event until then,
  -- or the last one was a disconnection.
  abbrev pub IsUnresolved : CompressedFie → Type 0
  IsUnresolved row =
      All (λ pd. (pd.directive_id == row.columns.probing_directive_id) ≡ false) pds
      ⊎ Any
          (λ pd.
            (pd.directive_id ≡ row.columns.probing_directive_id)
            × (All (λ e. is_of pd.agent_id e ≡ true → before (capture_time_of row) e.time ≡ true) es
                ⊎ Any (λ e. IsLastOf es pd.agent_id (capture_time_of row) e × (e.address ≡ none))
                    es))
          pds

  -- The FIEs are those of the rows, with their numbers, up to the first error.
  abbrev pub AreResolved : List (Option CompressedFie) → List (Option FullFie) → Type 0
  AreResolved [] [] = Unit
  AreResolved [] (fie ∷ fs) = ⊥
  AreResolved (row ∷ rows) [] = ⊥
  AreResolved (none ∷ rows) (none ∷ fs) = fs ≡ []
  AreResolved (some row ∷ rows) (none ∷ fs) = IsUnresolved row × (fs ≡ [])
  AreResolved (none ∷ rows) (some fie ∷ fs) = ⊥
  AreResolved (some row ∷ rows) (some fie ∷ fs) =
      IsResolved row fie × (fie.sequence_number ≡ row.sequence_number) × AreResolved rows fs

  module _ (m : Directives) (built : directives_by_id pds [] ≡ some m) where
    abbrev agents : ConnectionStream
    agents = connection_stream es

    IsResolved-fie :
        (row : CompressedFie) (n : ℕ) (pd : Directive) (ip : Bytes) (exact : Bool)
        → Explains es pd.agent_id (capture_time_of row) (connected ip exact)
        → Any (λ x. (x ≡ pd) × (x.directive_id ≡ row.columns.probing_directive_id)) pds
        → IsResolved row (fie_of row n pd ip) × ((fie_of row n pd ip).sequence_number ≡ n)
    unfolding fie_of
    IsResolved-fie row n pd ip exact said one =
        let address = Any-map _ _ (λ e r. (r.0, r.1)) es said in
        let at = HasTime-delta row in
        let times : HasTimes row pd (fie_of row n pd ip) = (
          at 0,
          IsReply-info row pd.near_ttl row.columns.near_reply_address 1 2 _ _ (at 1) (at 2),
          IsReply-info row ((pd.near_ttl + 1) % 2 ^ 8) row.columns.far_reply_address 3 4 _ _ (at 3)
              (at 4),
        ) in
        (
          (
            refl,
            refl,
            Any-map _ _
                (λ x both.
                  let (same, id) = both in
                  rw same (rw same at id, refl, refl, refl, refl, times, address))
                pds one,
          ),
          refl,
        )

    answer-IsResolved :
        (row : CompressedFie) (n : ℕ) (pd : Directive) (a : Answer) (fie : FullFie)
        → Explains es pd.agent_id (capture_time_of row) a
        → Any (λ x. (x ≡ pd) × (x.directive_id ≡ row.columns.probing_directive_id)) pds
        → with_answer row n pd a ≡ some fie
        → IsResolved row fie × (fie.sequence_number ≡ n)
    answer-IsResolved row n pd no_events fie said one h = absurd (cc)
    answer-IsResolved row n pd not_yet fie said one h = absurd (cc)
    answer-IsResolved row n pd (disconnected exact) fie said one h = absurd (cc)
    answer-IsResolved row n pd (connected ip exact) fie said one h =
        let same : fie_of row n pd ip ≡ fie = cc in
        rw (← same) (IsResolved-fie row n pd ip exact said one)

    directive-IsResolved :
        (row : CompressedFie) (n : ℕ) (o : Option Directive) (fie : FullFie)
        → find_directive row.columns.probing_directive_id m ≡ o
        → with_directive agents m row n o ≡ some fie
        → IsResolved row fie × (fie.sequence_number ≡ n)
    directive-IsResolved row n none fie e h = absurd (cc)
    directive-IsResolved row n (some pd) fie e h =
        answer-IsResolved row n pd (address_at agents pd.agent_id (capture_time_of row)) fie
          (address_at-Explains es pd.agent_id (capture_time_of row))
          (find_directive-IsOneOf pds m row.columns.probing_directive_id pd built e) h

    construct-IsResolved :
        (row : CompressedFie) (n : ℕ) (fie : FullFie)
        → construct agents m row n ≡ some fie
        → IsResolved row fie × (fie.sequence_number ≡ n)
    unfolding construct
    construct-IsResolved row n fie h =
        directive-IsResolved row n (find_directive row.columns.probing_directive_id m) fie refl h

    -- Where `construct` fails
    answer-IsUnresolved :
        (row : CompressedFie) (n : ℕ) (pd : Directive) (a : Answer)
        → Explains es pd.agent_id (capture_time_of row) a
        → Any (λ x. (x ≡ pd) × (x.directive_id ≡ row.columns.probing_directive_id)) pds
        → with_answer row n pd a ≡ none
        → IsUnresolved row
    answer-IsUnresolved row n pd no_events said one h = inr (
        Any-map _ _
          (λ x both.
            let (same, id) = both in
            rw same (rw same at id, inl (All-map _ _ (λ e no of. absurd (cc (no, of))) es said)))
          pds one)
    answer-IsUnresolved row n pd not_yet said one h =
        inr (
          Any-map _ _ (λ x both. let (same, id) = both in rw same (rw same at id, inl said)) pds
            one)
    answer-IsUnresolved row n pd (disconnected exact) said one h =
        let gone = Any-map _ _ (λ e r. (r.0, r.1)) es said in
        inr (
          Any-map _ _ (λ x both. let (same, id) = both in rw same (rw same at id, inr gone)) pds
            one)
    answer-IsUnresolved row n pd (connected ip exact) said one h = absurd (cc)

    directive-IsUnresolved :
        (row : CompressedFie) (n : ℕ) (o : Option Directive)
        → find_directive row.columns.probing_directive_id m ≡ o
        → with_directive agents m row n o ≡ none
        → IsUnresolved row
    directive-IsUnresolved row n none e h =
        inl (find_directive-none pds m row.columns.probing_directive_id built e)
    directive-IsUnresolved row n (some pd) e h =
        answer-IsUnresolved row n pd (address_at agents pd.agent_id (capture_time_of row))
          (address_at-Explains es pd.agent_id (capture_time_of row))
          (find_directive-IsOneOf pds m row.columns.probing_directive_id pd built e) h

    construct-IsUnresolved :
        (row : CompressedFie) (n : ℕ) → construct agents m row n ≡ none → IsUnresolved row
    unfolding construct
    construct-IsUnresolved row n h =
        directive-IsUnresolved row n (find_directive row.columns.probing_directive_id m) refl h

    -- `FIEs` makes of each row, up to the first error, the FIE of the directive with the row's ID, with the
    -- row's number: the agent, the destination, the version and the protocol are the directive's, and its source is
    -- the address with which the agent last connected before the capture, and from which it has not disconnected
    -- since. The five times are the capture time less the ages that the row packs in 6 bits each, where 63 is no
    -- time, and each reply has the row's address and is there if there is one. An error is one of the row itself, or
    -- no directive has its ID, or the agent of the directive has no address at the capture.
    pub fies-AreResolved :
        (rows : List (Option CompressedFie)) (n : ℕ)
        → AreNumbered n rows
        → AreResolved rows (fies agents m n rows)
    unfolding fies
    fies-AreResolved [] n numbered = tt
    fies-AreResolved (none ∷ rows) n numbered = refl
    fies-AreResolved (some row ∷ rows) n (number, numbered) =
        elim (Option-cases (construct agents m row n)) [
          | inl bad ↦ rw (fies, bad) (construct-IsUnresolved row n bad, refl)
          | inr (fie, good) ↦
              let (resolved, same) = construct-IsResolved row n fie good in
              rw (fies, good)
                (resolved, same ∙ sym number, fies-AreResolved rows (next_number n) numbered)
        ]
