-- ===== src/Scenarios/Plans.antt =====
-- A plan of two nodes and two agents.
use agentra.Base.{◌≤◌, ◌≡◌, refl, true, List, [], ◌∷◌, none, bytes, length}
use agentra.Lifecycle.Transitions.{pos}
use agentra.Planner.Answer.{PlannerNode, PlannerResponse, validate_dag}
use agentra.Planner.Agents.{Candidate}
use agentra.Planner.Checked.{validate_dag_sound, all_good}

abbrev build : PlannerNode
build = record {
  node_type = bytes "executor";
  description = bytes "build it";
  suggested_agent = bytes "Builder";
  depth = pos 0;
  dependencies = [];
}

abbrev join : PlannerNode
join = record {
  node_type = bytes "synthesis";
  description = bytes "join";
  suggested_agent = [];
  depth = pos 1;
  dependencies = pos 0 ∷ [];
}

abbrev two_nodes : PlannerResponse
two_nodes = record { plan = []; nodes = build ∷ join ∷ [] }

abbrev team : List Candidate
team = record { id = 3; name = bytes "my-builder" } ∷ record { id = 4; name = bytes "tester" } ∷ []

passes : validate_dag two_nodes 10 ≡ none
unfolding validate_dag
passes = refl

validate_dag_sound_example :
    (1 ≤ length two_nodes.nodes)
    × (length two_nodes.nodes ≤ 10)
    × (all_good 2 0 two_nodes.nodes ≡ true)
validate_dag_sound_example = validate_dag_sound two_nodes 10 passes
