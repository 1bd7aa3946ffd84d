-- ===== src/Planner/Checked.antt =====
-- What the checks of the planner establish.
use agentra.Base.{
  ℕ, suc, ◌≤◌, ◌≡◌, inl, inr, refl, sym, ap, ◌∙◌, Bool, true, false, not, ◌&&◌, List, [], ◌∷◌,
  Option, none, some, arith, if◌then◌else◌, ◌==◌, ltb, length, is_empty, trim_space, some_of,
  Bool-cases, some-none,
}
use agentra.Lifecycle.Transitions.{ℤ, pos, negsuc}
use agentra.Planner.Answer.{
  PlannerNode, PlannerResponse, PlanError, validate_dag, check_dependencies, first_error,
  check_node, check_nodes, is_node_type,
}

-- A dependency in range that is not the node itself.
abbrev pub good_dependency : ℕ → ℕ → ℤ → Bool
good_dependency total i (negsuc n) = false
good_dependency total i (pos d) = ltb d total && not (d == i)

abbrev pub good_node : ℕ → ℕ → PlannerNode → Bool
good_node total i node =
    is_node_type node.node_type
    && (not (is_empty (trim_space node.description))
        && not (some_of (λ d. not (good_dependency total i d)) node.dependencies))

abbrev pub all_good : ℕ → ℕ → List PlannerNode → Bool
all_good total i [] = true
all_good total i (node ∷ nodes) = good_node total i node && all_good total (suc i) nodes

dependencies_good :
    (total i : ℕ) (ds : List ℤ)
    → check_dependencies total i ds ≡ none
    → some_of (λ d. not (good_dependency total i d)) ds ≡ false
dependencies_good total i [] h = refl
dependencies_good total i (negsuc n ∷ ds) h = cc
dependencies_good total i (pos d ∷ ds) h = ground (arith, dependencies_good total i ds)

first_error-none : (a b : Option PlanError) → first_error a b ≡ none → (a ≡ none) × (b ≡ none)
first_error-none none b h = (refl, h)
first_error-none (some e) b h = cc

node_good :
    (total i : ℕ) (node : PlannerNode)
    → check_node total i node ≡ none
    → good_node total i node ≡ true
node_good total i node h = ground (
  arith,
  dependencies_good total i node.dependencies,
  first_error-none (check_dependencies total i node.dependencies)
      (if is_empty (trim_space node.description) then some (PlanError.no_description i) else none),
)

nodes_good :
    (total i : ℕ) (nodes : List PlannerNode)
    → check_nodes total i nodes ≡ none
    → all_good total i nodes ≡ true
nodes_good total i [] h = refl
nodes_good total i (node ∷ nodes) h =
    let e = first_error-none (check_node total i node) (check_nodes total (suc i) nodes) h in
    ground (arith, node_good total i node e.0, nodes_good total (suc i) nodes e.1)

sound_list :
    (nodes : List PlannerNode) (max_nodes : ℕ)
    → (if is_empty nodes
        then some PlanError.no_nodes
        else if ltb max_nodes (length nodes)
        then some PlanError.too_many_nodes
        else check_nodes (length nodes) 0 nodes)
      ≡ none
    → (1 ≤ length nodes) × (length nodes ≤ max_nodes) × (all_good (length nodes) 0 nodes ≡ true)
sound_list [] max_nodes h = cc
sound_list (n ∷ nodes) max_nodes h = elim (Bool-cases (ltb max_nodes (suc (length nodes)))) [
  | inl y ↦ absurd (
      some-none PlanError.too_many_nodes (
        sym (
          ap
            (λ b.
              if b
              then some PlanError.too_many_nodes
              else check_nodes (suc (length nodes)) 0 (n ∷ nodes))
            y)
        ∙ h))
  | inr y ↦ (
    omega arith,
    ground (arith, y),
    nodes_good (suc (length nodes)) 0 (n ∷ nodes) (
        sym (
          ap
            (λ b.
              if b
              then some PlanError.too_many_nodes
              else check_nodes (suc (length nodes)) 0 (n ∷ nodes))
            y)
        ∙ h),
  )
]

-- A plan that passes has between one node and the maximum, and each node has a known type, a
-- description, and dependencies that are other nodes of the plan.
pub validate_dag_sound :
    (plan : PlannerResponse) (max_nodes : ℕ)
    → validate_dag plan max_nodes ≡ none
    → (1 ≤ length plan.nodes)
      × (length plan.nodes ≤ max_nodes)
      × (all_good (length plan.nodes) 0 plan.nodes ≡ true)
unfolding validate_dag
validate_dag_sound plan max_nodes h = sound_list plan.nodes max_nodes h
