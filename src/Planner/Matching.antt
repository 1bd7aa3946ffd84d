-- ===== src/Planner/Matching.antt =====
-- Which agents the nodes of a plan are given.
use agentra.Base.{
  ℕ, suc, ◌+◌, ◌<◌, ◌≡◌, ◌⊎◌, inl, inr, refl, Bool, true, false, ◌&&◌, List, [], ◌∷◌, Option, none,
  some, Text, arith, if◌then◌else◌, ◌==◌, ltb, leb, length, trim_space, to_lower, some_of,
  Bool-cases,
}
use agentra.Planner.Answer.{PlannerNode}
use agentra.Planner.Agents.{
  Candidate, best, resolve_agent_assignments, assign_from, assigned, score_of,
}

best_listed :
    (suggested : Text) (agents : List Candidate) (b : Option ℕ) (n id : ℕ)
    → best suggested agents b n ≡ some id
    → (b ≡ some id) ⊎ (some_of (λ a. a.id == id) agents ≡ true)
unfolding best
best_listed suggested [] b n id h = inl h
best_listed suggested (a ∷ rest) b n id h = elim (Bool-cases (ltb n (score_of suggested a))) [
  | inl y ↦
      elim (best_listed suggested rest (some a.id) (score_of suggested a) id (ground (arith, y))) [
        | inl e ↦ inr (ground arith)
        | inr e ↦ inr (ground arith)
      ]
  | inr y ↦ elim (best_listed suggested rest b n id (ground (arith, y))) [
    | inl e ↦ inl e
    | inr e ↦ inr (ground arith)
  ]
]

-- A position of the plan, not before `i`, with the identifier of one of the agents.
abbrev pub is_pair : List Candidate → ℕ → ℕ → ℕ × ℕ → Bool
is_pair agents i end p = leb i p.0 && (ltb p.0 end && some_of (λ a. a.id == p.1) agents)

abbrev pub all_paired : List Candidate → ℕ → ℕ → List (ℕ × ℕ) → Bool
all_paired agents i end [] = true
all_paired agents i end (p ∷ ps) = is_pair agents i end p && all_paired agents (suc p.0) end ps

all_paired_before :
    (agents : List Candidate) (i end : ℕ) (ps : List (ℕ × ℕ))
    → all_paired agents (suc i) end ps ≡ true
    → all_paired agents i end ps ≡ true
all_paired_before agents i end [] h = refl
all_paired_before agents i end (p ∷ ps) h = ground arith

assigned_good :
    (agents : List Candidate) (i end : ℕ) (o : Option ℕ) (ps : List (ℕ × ℕ))
    → i < end
    → ((id : ℕ) → o ≡ some id → some_of (λ a. a.id == id) agents ≡ true)
    → all_paired agents (suc i) end ps ≡ true
    → all_paired agents i end (assigned i o ps) ≡ true
assigned_good agents i end none ps lt listed h = all_paired_before agents i end ps h
assigned_good agents i end (some id) ps lt listed h = ground (arith, listed id refl)

best_of_agents :
    (suggested : Text) (agents : List Candidate) (id : ℕ)
    → best suggested agents none 0 ≡ some id
    → some_of (λ a. a.id == id) agents ≡ true
best_of_agents suggested agents id h = elim (best_listed suggested agents none 0 id h) [
  | inl e ↦ cc
  | inr e ↦ e
]

assign_step :
    (agents : List Candidate) (i end : ℕ) (skip : Bool) (o : Option ℕ) (rest : List (ℕ × ℕ))
    → i < end
    → ((id : ℕ) → o ≡ some id → some_of (λ a. a.id == id) agents ≡ true)
    → all_paired agents (suc i) end rest ≡ true
    → all_paired agents i end (if skip then rest else assigned i o rest) ≡ true
assign_step agents i end true o rest lt listed h = all_paired_before agents i end rest h
assign_step agents i end false o rest lt listed h = assigned_good agents i end o rest lt listed h

assign_from_good :
    (agents : List Candidate) (i end : ℕ) (nodes : List PlannerNode)
    → end ≡ i + length nodes
    → all_paired agents i end (assign_from agents i nodes) ≡ true
unfolding assign_from
assign_from_good agents i end [] e = refl
assign_from_good agents i end (node ∷ nodes) e =
    assign_step agents i end _ _ (assign_from agents (suc i) nodes) (omega arith)
      (best_of_agents (to_lower (trim_space node.suggested_agent)) agents)
      (assign_from_good agents (suc i) end nodes (omega arith))

-- Every assignment gives a node of the plan the identifier of one of the agents, and no node gets
-- two (the positions rise).
pub resolve_agent_assignments_sound :
    (nodes : List PlannerNode) (agents : List Candidate)
    → all_paired agents 0 (length nodes) (resolve_agent_assignments nodes agents) ≡ true
unfolding resolve_agent_assignments
resolve_agent_assignments_sound nodes agents =
    assign_from_good agents 0 (length nodes) nodes (omega arith)
