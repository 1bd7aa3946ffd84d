-- ===== src/Adapter/Dispatch.antt =====
-- Which adapters may run the stages of a loop.
use agentra.Base.{
  Bool, true, false, ◌≡◌, refl, sym, ap, ◌∙◌, ◌⊎◌, Option, none, some, Text, bytes, if◌then◌else◌,
  inl, inr, text_eq,
}
use agentra.Adapter.Contract.{
  Capability, AdapterDescriptor, validate, supports, validate_exec_options, check_requested,
  require, unsupported_capability,
}
use agentra.Adapter.Known.{
  descriptor_for, claude, claude_descriptor, codex_descriptor, opencode_descriptor,
}
use agentra.Adapter.Stages.{
  StageRejection, refused_options, execution_policy, validate_adapter_for_task_type,
  validate_trimmed, validate_policy,
}

three {ℓ} :
    {A : Type ℓ} (a b c : Bool) (x y z d : A)
    → (if a then some x else if b then some y else if c then some z else none) ≡ some d
    → ((a ≡ true) × (d ≡ x)) ⊎ (((a ≡ false) × (d ≡ y)) ⊎ ((a ≡ false) × (d ≡ z)))
three true b c x y z d h = inl (refl, cc)
three false true c x y z d h = inr (inl (refl, cc))
three false false true x y z d h = inr (inr (refl, cc))
three false false false x y z d h = cc

known_cases :
    (p : Text) (d : AdapterDescriptor)
    → descriptor_for p ≡ some d
    → ((text_eq p claude ≡ true) × (d ≡ claude_descriptor))
      ⊎ (((text_eq p claude ≡ false) × (d ≡ codex_descriptor))
          ⊎ ((text_eq p claude ≡ false) × (d ≡ opencode_descriptor)))
unfolding descriptor_for
known_cases p d h = three _ _ _ _ _ _ d h

claude_valid : validate claude_descriptor ≡ none
unfolding validate
claude_valid = refl

codex_valid : validate codex_descriptor ≡ none
unfolding validate
codex_valid = refl

opencode_valid : validate opencode_descriptor ≡ none
unfolding validate
opencode_valid = refl

-- The descriptor of every known provider is complete, with a known level for each capability.
pub known_valid : (p : Text) (d : AdapterDescriptor) → descriptor_for p ≡ some d → validate d ≡ none
known_valid p d h = elim (known_cases p d h) [
  | inl (a, e) ↦ ap validate e ∙ claude_valid
  | inr (inl (a, e)) ↦ ap validate e ∙ codex_valid
  | inr (inr (a, e)) ↦ ap validate e ∙ opencode_valid
]

abbrev pub IsLoopStage : Text → Type 0
IsLoopStage t =
    (t ≡ bytes "loop_plan")
    ⊎ ((t ≡ bytes "loop_develop") ⊎ ((t ≡ bytes "loop_review") ⊎ (t ≡ bytes "loop_fix")))

claude_runs : (t : Text) → IsLoopStage t → validate_adapter_for_task_type claude_descriptor t ≡ none
unfolding validate_adapter_for_task_type validate_trimmed execution_policy validate_policy
    validate_exec_options validate check_requested require supports
claude_runs t (inl e) = ap (validate_adapter_for_task_type claude_descriptor) e
claude_runs t (inr (inl e)) = ap (validate_adapter_for_task_type claude_descriptor) e
claude_runs t (inr (inr (inl e))) = ap (validate_adapter_for_task_type claude_descriptor) e
claude_runs t (inr (inr (inr e))) = ap (validate_adapter_for_task_type claude_descriptor) e

abbrev pub no_turns : Option StageRejection
no_turns = some (refused_options (unsupported_capability Capability.max_turns))

codex_refuses :
    (t : Text) → IsLoopStage t → validate_adapter_for_task_type codex_descriptor t ≡ no_turns
unfolding validate_adapter_for_task_type validate_trimmed execution_policy validate_policy
    validate_exec_options validate check_requested require supports
codex_refuses t (inl e) = ap (validate_adapter_for_task_type codex_descriptor) e
codex_refuses t (inr (inl e)) = ap (validate_adapter_for_task_type codex_descriptor) e
codex_refuses t (inr (inr (inl e))) = ap (validate_adapter_for_task_type codex_descriptor) e
codex_refuses t (inr (inr (inr e))) = ap (validate_adapter_for_task_type codex_descriptor) e

opencode_refuses :
    (t : Text) → IsLoopStage t → validate_adapter_for_task_type opencode_descriptor t ≡ no_turns
unfolding validate_adapter_for_task_type validate_trimmed execution_policy validate_policy
    validate_exec_options validate check_requested require supports
opencode_refuses t (inl e) = ap (validate_adapter_for_task_type opencode_descriptor) e
opencode_refuses t (inr (inl e)) = ap (validate_adapter_for_task_type opencode_descriptor) e
opencode_refuses t (inr (inr (inl e))) = ap (validate_adapter_for_task_type opencode_descriptor) e
opencode_refuses t (inr (inr (inr e))) = ap (validate_adapter_for_task_type opencode_descriptor) e

-- Of the known providers, claude may run every stage of a loop; every other one is refused every
-- stage, as it supports no limit on turns.
pub loop_stages_need_claude :
    (p : Text) (d : AdapterDescriptor) (t : Text)
    → descriptor_for p ≡ some d
    → IsLoopStage t
    → validate_adapter_for_task_type d t ≡ (if text_eq p claude then none else no_turns)
loop_stages_need_claude p d t h s = elim (known_cases p d h) [
  | inl (a, e) ↦
      ap (λ x. validate_adapter_for_task_type x t) e
      ∙ claude_runs t s
      ∙ sym (ap (λ b. if b then none else no_turns) a)
  | inr (inl (a, e)) ↦
      ap (λ x. validate_adapter_for_task_type x t) e
      ∙ codex_refuses t s
      ∙ sym (ap (λ b. if b then none else no_turns) a)
  | inr (inr (a, e)) ↦
      ap (λ x. validate_adapter_for_task_type x t) e
      ∙ opencode_refuses t s
      ∙ sym (ap (λ b. if b then none else no_turns) a)
]
