-- ===== src/Adapter/Options.antt =====
-- Execution options reach an adapter only when it supports what they ask for.
use agentra.Base.{
  Bool, true, false, not, ◌||◌, ◌≡◌, refl, Option, none, some, arith, is_empty, some_of,
  if◌then◌else◌,
}
use agentra.Adapter.Contract.{
  Capability, AdapterDescriptor, ExecOptions, validate, validate_exec_options, supports,
  is_positive, is_negative, is_blank, check_requested, or_else, require, Rejection,
}

abbrev pub Requested : AdapterDescriptor → ExecOptions → Type 0
Requested d opts =
    ((is_empty opts.model || supports d Capability.model_selection) ≡ true)
    × ((is_empty opts.system_prompt || supports d Capability.system_prompt) ≡ true)
    × ((not (is_positive opts.max_turns) || supports d Capability.max_turns) ≡ true)
    × ((is_empty opts.resume_session_id || supports d Capability.resume) ≡ true)
    × ((is_empty opts.tools || supports d Capability.tool_restrictions) ≡ true)

-- What the options of an execution may rely on once they were accepted.
abbrev pub Accepted : AdapterDescriptor → ExecOptions → Type 0
Accepted d opts =
    (validate d ≡ none)
    × (is_negative opts.timeout ≡ false)
    × (is_negative opts.max_turns ≡ false)
    × (some_of is_blank opts.tools ≡ false)
    × Requested d opts

or_else-none {ℓ} : {A : Type ℓ} (a b : Option A) → or_else a b ≡ none → (a ≡ none) × (b ≡ none)
or_else-none none b h = (refl, h)
or_else-none (some a) b h = cc

require-none :
    (d : AdapterDescriptor) (active : Bool) (c : Capability)
    → require d active c ≡ none
    → (not active || supports d c) ≡ true
unfolding supports require
require-none d active c h = ground arith

require-not :
    (d : AdapterDescriptor) (absent : Bool) (c : Capability)
    → require d (not absent) c ≡ none
    → (absent || supports d c) ≡ true
unfolding supports require
require-not d absent c h = ground arith

Requested-sound :
    (d : AdapterDescriptor) (opts : ExecOptions) → check_requested d opts ≡ none → Requested d opts
unfolding check_requested
Requested-sound d opts h =
    let m = or_else-none _ _ h in
    let s = or_else-none _ _ m.1 in
    let t = or_else-none _ _ s.1 in
    let r = or_else-none _ _ t.1 in
    (
      require-not d (is_empty opts.model) Capability.model_selection m.0,
      require-not d (is_empty opts.system_prompt) Capability.system_prompt s.0,
      require-none d (is_positive opts.max_turns) Capability.max_turns t.0,
      require-not d (is_empty opts.resume_session_id) Capability.resume r.0,
      require-not d (is_empty opts.tools) Capability.tool_restrictions r.1,
    )

guards_sound :
    (a b c : Bool) (x y z : Rejection) (o : Option Rejection)
    → (if a then some x else if b then some y else if c then some z else o) ≡ none
    → (a ≡ false) × (b ≡ false) × (c ≡ false) × (o ≡ none)
guards_sound a b c x y z o h = ground arith

-- Options that an adapter's descriptor passes are well formed (no negative timeout or turn limit, no
-- blank tool name), the descriptor is complete, and it supports every capability that they ask for.
pub validate_exec_options_sound :
    (d : AdapterDescriptor) (opts : ExecOptions)
    → validate_exec_options d opts ≡ none
    → Accepted d opts
unfolding validate_exec_options
validate_exec_options_sound d opts h =
    let v = or_else-none _ _ h in
    let g = guards_sound _ _ _ _ _ _ _ v.1 in (v.0, g.0, g.1, g.2, Requested-sound d opts g.3)
