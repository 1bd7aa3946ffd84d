-- ===== src/Planner/Agents.antt =====
-- Suggested agents matched to the agents of a workspace (server/internal/service/planner.go).
use agentra.Base.{
  ℕ, suc, ◌+◌, Bool, not, ◌||◌, List, [], ◌∷◌, Option, none, some, Text, if◌then◌else◌, ◌==◌, ltb,
  length, keep, text_eq, contains_text, to_lower, trim_space, is_empty,
}
use agentra.Planner.Answer.{PlannerNode}

-- db.Agent, as far as it is read here.
pub record Candidate : Type 0 where
  pub id : ℕ
  pub name : Text

abbrev pub is_delimiter : ℕ → Bool
is_delimiter c = (c == 32) || ((c == b'-') || ((c == b'_') || (c == b'.')))

abbrev pub pieces : Text → List Text
pieces [] = [] ∷ []
pieces (c ∷ s) = elim (pieces s) [
  | [] ↦ (c ∷ []) ∷ []
  | p ∷ ps ↦ if is_delimiter c then [] ∷ p ∷ ps else (c ∷ p) ∷ ps
]

-- strings.FieldsFunc: the pieces that are not empty.
abbrev pub split_name_words : Text → List Text
split_name_words name = keep (λ w. not (is_empty w)) (pieces name)

abbrev pub word_score : Text → Text → ℕ
word_score sw aw =
    if text_eq sw aw
    then 50
    else if contains_text aw sw
    then 30
    else if contains_text sw aw
    then 20
    else 0

abbrev pub score_against : Text → List Text → ℕ
score_against sw [] = 0
score_against sw (aw ∷ aws) = word_score sw aw + score_against sw aws

abbrev pub words_score : List Text → List Text → ℕ
words_score [] agent_words = 0
words_score (sw ∷ sws) agent_words =
    (if ltb (length sw) 2 then 0 else score_against sw agent_words) + words_score sws agent_words

unfoldable pub match_score : Text → List Text → Text → List Text → ℕ
match_score suggested suggested_words agent agent_words =
    if text_eq suggested agent
    then 1000
    else (if contains_text agent suggested
        then 200
        else if contains_text suggested agent
        then 200
        else 0)
      + words_score suggested_words agent_words

abbrev pub score_of : Text → Candidate → ℕ
unfolding match_score
score_of suggested a =
    match_score suggested (split_name_words suggested) (to_lower a.name)
      (split_name_words (to_lower a.name))

-- The first agent with the highest score above the one so far.
unfoldable pub best : Text → List Candidate → Option ℕ → ℕ → Option ℕ
best suggested [] best_id best_score = best_id
best suggested (a ∷ rest) best_id best_score =
    if ltb best_score (score_of suggested a)
    then best suggested rest (some a.id) (score_of suggested a)
    else best suggested rest best_id best_score

abbrev pub assigned : ℕ → Option ℕ → List (ℕ × ℕ) → List (ℕ × ℕ)
assigned i none rest = rest
assigned i (some id) rest = (i, id) ∷ rest

unfoldable pub assign_from : List Candidate → ℕ → List PlannerNode → List (ℕ × ℕ)
unfolding best
assign_from agents i [] = []
assign_from agents i (node ∷ nodes) =
    let rest = assign_from agents (suc i) nodes in
    let suggested = trim_space node.suggested_agent in
    if is_empty suggested then rest else assigned i (best (to_lower suggested) agents none 0) rest

-- The map from positions of nodes to agents, as the list of its pairs.
unfoldable pub resolve_agent_assignments : List PlannerNode → List Candidate → List (ℕ × ℕ)
unfolding assign_from
resolve_agent_assignments nodes agents = assign_from agents 0 nodes
