-- ===== src/Planner/Answer.antt =====
-- The planner's answer: reading it and checking its graph (server/internal/service/planner.go).
-- Decoding JSON is the parameter `unmarshal`.
use agentra.Base.{
  ℕ, suc, ◌-◌, Bool, false, ◌||◌, List, [], ◌∷◌, ◌++◌, Option, none, some, Text, bytes,
  if◌then◌else◌, ◌==◌, ltb, leb, length, take, text_eq, has_prefix, trim_space, is_empty,
}
use agentra.Lifecycle.Transitions.{ℤ, pos, negsuc}

-- A node with the fields of its context that are read here.
pub record PlannerNode : Type 0 where
  pub node_type : Text
  pub description : Text
  pub suggested_agent : Text
  pub depth : ℤ
  pub dependencies : List ℤ

pub record PlannerResponse : Type 0 where
  pub plan : Text
  pub nodes : List PlannerNode

abbrev pub fence : Text
fence = 96 ∷ 96 ∷ 96 ∷ []

-- What follows the first newline, or the whole text.
abbrev pub after_newline : Text → Option Text
after_newline [] = none
after_newline (c ∷ s) = if c == 10 then some s else after_newline s

abbrev pub or_whole : Option Text → Text → Text
or_whole none s = s
or_whole (some t) s = t

abbrev pub ends_with_fence : Text → Bool
ends_with_fence [] = false
ends_with_fence (c ∷ s) = text_eq (c ∷ s) fence || ends_with_fence s

abbrev pub strip_suffix : Text → Text
strip_suffix s = if ends_with_fence s then take (length s - 3) s else s

abbrev pub strip_fences : Text → Text
strip_fences cleaned =
    if has_prefix cleaned fence
    then trim_space (strip_suffix (or_whole (after_newline cleaned) cleaned))
    else cleaned

abbrev pub from_open : Text → Option Text
from_open [] = none
from_open (c ∷ s) = if c == b'{' then some (c ∷ s) else from_open s

-- Up to the last closing brace.
abbrev pub to_close : Text → Option Text
to_close [] = none
to_close (c ∷ s) = elim (to_close s) [
  | some r ↦ some (c ∷ r)
  | none ↦ if c == b'}' then some (c ∷ []) else none
]

abbrev pub close_of : Option Text → Option Text
close_of none = none
close_of (some s) = to_close s

-- The text that is decoded: none for the two errors.
unfoldable pub object_text : Text → Option Text
object_text raw = close_of (from_open (strip_fences (trim_space raw)))

abbrev pub decoded : (Text → Option PlannerResponse) → Option Text → Option PlannerResponse
decoded unmarshal none = none
decoded unmarshal (some s) = unmarshal s

unfoldable pub parse_planner_json : (Text → Option PlannerResponse) → Text → Option PlannerResponse
unfolding object_text
parse_planner_json unmarshal raw = decoded unmarshal (object_text raw)

pub data PlanError : Type 0 where
  no_nodes too_many_nodes : PlanError
  invalid_node_type out_of_range self_dependency no_description : ℕ → PlanError

abbrev pub is_node_type : Text → Bool
is_node_type t = text_eq t (bytes "executor") || text_eq t (bytes "synthesis")

abbrev pub check_dependencies : ℕ → ℕ → List ℤ → Option PlanError
check_dependencies total i [] = none
check_dependencies total i (negsuc n ∷ ds) = some (out_of_range i)
check_dependencies total i (pos d ∷ ds) =
    let rest = check_dependencies total i ds in
    if leb total d then some (out_of_range i) else if d == i then some (self_dependency i) else rest

abbrev pub first_error : Option PlanError → Option PlanError → Option PlanError
first_error none rest = rest
first_error (some e) rest = some e

abbrev pub check_node : ℕ → ℕ → PlannerNode → Option PlanError
check_node total i node =
    if is_node_type node.node_type
    then first_error (check_dependencies total i node.dependencies)
        (if is_empty (trim_space node.description) then some (no_description i) else none)
    else some (invalid_node_type i)

abbrev pub check_nodes : ℕ → ℕ → List PlannerNode → Option PlanError
check_nodes total i [] = none
check_nodes total i (node ∷ nodes) =
    first_error (check_node total i node) (check_nodes total (suc i) nodes)

-- The first thing wrong with a plan, if any.
unfoldable pub validate_dag : PlannerResponse → ℕ → Option PlanError
validate_dag plan max_nodes =
    if is_empty plan.nodes
    then some no_nodes
    else if ltb max_nodes (length plan.nodes)
    then some too_many_nodes
    else check_nodes (length plan.nodes) 0 plan.nodes

-- At most 500 bytes of a text.
unfoldable pub truncate_for_error : Text → Text
truncate_for_error s =
    let suffix = bytes "... (truncated)" in
    if leb (length s) 500 then s else take (500 - length suffix) s ++ suffix
