-- ===== src/Agents/List/Sorted.antt =====
-- What the list holds, and in which order.
use fie_importer.Prelude.{
  ◌≡◌, refl, ◌⊎◌, inl, inr, true, false, Option, some, List, [], ◌∷◌, arith, Bool-cases, ℤ,
}
use fie_importer.Prelude.Time.{Time}
use fie_importer.Prelude.Bytes.{Bytes}
use fie_importer.Prelude.Sort.{sort, sort-perm, sort-IsSorted, IsSorted}
use mathlib.Core.List.{Perm}
use fie_importer.Net.{Addr}
use fie_importer.Agents.Agent.{Agent, Instance, Subnet}
use fie_importer.Agents.List.{
  ListError, Listed, good, bad, text_le, is_excluded, to_agent, to_agents, by_id, list,
}

text_le_total : (s t : Bytes) → text_le s t ≡ false → text_le t s ≡ true
unfolding text_le
text_le_total [] t h = cc
text_le_total (c ∷ s) [] h = refl
text_le_total (c ∷ s) (d ∷ t) h = ground (arith, text_le_total s t)

text_le_trans : (s t u : Bytes) → text_le s t ≡ true → text_le t u ≡ true → text_le s u ≡ true
unfolding text_le
text_le_trans [] t u h k = refl
text_le_trans (c ∷ s) [] u h k = cc
text_le_trans (c ∷ s) (d ∷ t) [] h k = cc
text_le_trans (c ∷ s) (d ∷ t) (e ∷ u) h k = ground (arith, text_le_trans s t u)

module _ (parse_time : Bytes → Option Time) (parse_addr : Bytes → Option Addr)
    (parse_prefix : Bytes → Option Bytes) (cidr : Bytes → ℤ → Option Bytes) where
  -- The agents of the instances that are not excluded, in the order of the instances.
  pub data AreAgents (subnets : List Subnet) (exclude : List Bytes) (now : Time)
      : List Instance → List Agent → Type 0 where
    no_more : AreAgents subnets exclude now [] []
    excluded :
        {i : Instance} {instances : List Instance} {agents : List Agent}
        → is_excluded exclude i.name ≡ true
        → AreAgents subnets exclude now instances agents
        → AreAgents subnets exclude now (i ∷ instances) agents
    listed :
        {i : Instance} {instances : List Instance} {a : Agent} {agents : List Agent}
        → is_excluded exclude i.name ≡ false
        → to_agent parse_time parse_addr parse_prefix cidr i subnets now ≡ good a
        → AreAgents subnets exclude now instances agents
        → AreAgents subnets exclude now (i ∷ instances) (a ∷ agents)

  listed_cases : (l : Listed Agent) → ((a : Agent) × (l ≡ good a)) ⊎ ((e : ListError) × (l ≡ bad e))
  listed_cases (good a) = inl (a, refl)
  listed_cases (bad e) = inr (e, refl)

  all_cases :
      (l : Listed (List Agent))
      → ((found : List Agent) × (l ≡ good found)) ⊎ ((e : ListError) × (l ≡ bad e))
  all_cases (good found) = inl (found, refl)
  all_cases (bad e) = inr (e, refl)

  module _ (subnets : List Subnet) (exclude : List Bytes) (now : Time) where
    to_agents-AreAgents :
        (instances : List Instance) (agents : List Agent)
        → to_agents parse_time parse_addr parse_prefix cidr instances subnets exclude now
          ≡ good agents
        → AreAgents subnets exclude now instances agents
    unfolding to_agents
    to_agents-AreAgents [] agents h = let nothing : [] ≡ agents = cc in rw (← nothing) no_more
    to_agents-AreAgents (i ∷ instances) agents h = elim (Bool-cases (is_excluded exclude i.name)) [
      | inl out ↦ excluded out (to_agents-AreAgents instances agents (rw out at h))
      | inr kept ↦
          elim (listed_cases (to_agent parse_time parse_addr parse_prefix cidr i subnets now)) [
            | inr (e, failed) ↦ absurd (cc (rw (kept, failed) at h))
            | inl (a, made) ↦
                elim (all_cases (
                  to_agents parse_time parse_addr parse_prefix cidr instances subnets exclude
                    now)) [
                      | inr (e, failed) ↦ absurd (cc (rw (kept, made, failed) at h))
                      | inl (others, rest) ↦
                          let whole : a ∷ others ≡ agents = cc (rw (kept, made, rest) at h) in
                          rw (← whole)
                            (listed kept made (to_agents-AreAgents instances others rest))
                    ]
          ]
    ]

    -- A list of agents is sorted by name, and it is made of exactly the instances that are not excluded,
    -- each as `toAgent` makes it.
    pub list-AreAgents :
        (instances : List Instance) (agents : List Agent)
        → list parse_time parse_addr parse_prefix cidr
            (some (some instances))
            (some (some subnets))
            exclude
            now
          ≡ good agents
        → IsSorted by_id agents
          × ((found : List Agent) × AreAgents subnets exclude now instances found
              × Perm agents found)
    unfolding list
    list-AreAgents instances agents h =
        elim (all_cases
          (to_agents parse_time parse_addr parse_prefix cidr instances subnets exclude now)) [
            | inr (e, failed) ↦ absurd (cc (rw failed at h))
            | inl (made, found) ↦
                let whole : sort by_id made ≡ agents = cc (rw found at h) in
                rw (← whole) (
                  sort-IsSorted by_id (λ x y. text_le_total x.agent_id y.agent_id)
                      (λ x y z. text_le_trans x.agent_id y.agent_id z.agent_id) made,
                  (made, to_agents-AreAgents instances made found, sort-perm by_id made),
                )
          ]
