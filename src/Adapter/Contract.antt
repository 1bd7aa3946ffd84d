-- ===== src/Adapter/Contract.antt =====
-- Descriptors of the runtime adapters and the validation of execution options
-- (server/pkg/agent/contract.go, server/pkg/agent/types/types.go).
use agentra.Base.{
  ℕ, zero, suc, Bool, true, false, not, ◌&&◌, List, [], ◌∷◌, Option, none, some, Text, bytes,
  is_empty, trim_space, if◌then◌else◌, some_of,
}
use agentra.Lifecycle.Transitions.{ℤ, pos, negsuc}

pub data Capability : Type 0 where
  discover : Capability
  models : Capability
  execute : Capability
  stream : Capability
  resume : Capability
  cancel : Capability
  model_selection : Capability
  system_prompt : Capability
  max_turns : Capability
  tool_restrictions : Capability
  skills : Capability
  mcp : Capability
  usage : Capability
  artifacts : Capability

-- A number for each capability, by which two are compared.
abbrev pub position : Capability → ℕ
position Capability.discover = 0
position Capability.models = 1
position Capability.execute = 2
position Capability.stream = 3
position Capability.resume = 4
position Capability.cancel = 5
position Capability.model_selection = 6
position Capability.system_prompt = 7
position Capability.max_turns = 8
position Capability.tool_restrictions = 9
position Capability.skills = 10
position Capability.mcp = 11
position Capability.usage = 12
position Capability.artifacts = 13

abbrev pub all_capabilities : List Capability
all_capabilities =
    Capability.discover ∷ Capability.models ∷ Capability.execute ∷ Capability.stream
    ∷ Capability.resume ∷ Capability.cancel ∷ Capability.model_selection ∷ Capability.system_prompt
    ∷ Capability.max_turns ∷ Capability.tool_restrictions ∷ Capability.skills ∷ Capability.mcp
    ∷ Capability.usage ∷ Capability.artifacts ∷ []

-- The text of a level; `invalid` is every other text.
pub data SupportLevel : Type 0 where
  native : SupportLevel
  adapter : SupportLevel
  unsupported : SupportLevel
  invalid : Text → SupportLevel

pub record CapabilitySupport : Type 0 where
  pub level : SupportLevel
  pub detail : Text

pub record AdapterDescriptor : Type 0 where
  pub provider : Text
  pub transport : Text
  pub capabilities : Capability → Option CapabilitySupport

-- time.Duration and int as integers.
pub record ExecOptions : Type 0 where
  pub cwd : Text
  pub model : Text
  pub system_prompt : Text
  pub max_turns : ℤ
  pub timeout : ℤ
  pub resume_session_id : Text
  pub tools : List Text

pub data Rejection : Type 0 where
  no_provider : Rejection
  no_transport : Rejection
  undeclared : Capability → Rejection
  invalid_level : Capability → Rejection
  invalid_option : Text → Rejection
  unsupported_capability : Capability → Rejection

abbrev available : SupportLevel → Bool
available SupportLevel.unsupported = false
available _ = true

abbrev pub supports_as : Option CapabilitySupport → Bool
supports_as none = false
supports_as (some s) = available s.level

unfoldable pub supports : AdapterDescriptor → Capability → Bool
supports d capability = supports_as (d.capabilities capability)

abbrev pub check_declared : Capability → Option CapabilitySupport → Option Rejection
check_declared capability none = some (Rejection.undeclared capability)
check_declared capability (some s) = elim s.level [
  | SupportLevel.invalid t ↦ some (Rejection.invalid_level capability)
  | _ ↦ none
]

abbrev pub or_else {ℓ} : {A : Type ℓ} → Option A → Option A → Option A
or_else none rest = rest
or_else (some a) rest = some a

abbrev pub check_all : AdapterDescriptor → List Capability → Option Rejection
check_all d [] = none
check_all d (c ∷ cs) = or_else (check_declared c (d.capabilities c)) (check_all d cs)

-- The first thing wrong with a descriptor, if any.
unfoldable pub validate : AdapterDescriptor → Option Rejection
validate d =
    if is_empty d.provider
    then some Rejection.no_provider
    else if is_empty d.transport
    then some Rejection.no_transport
    else check_all d all_capabilities

abbrev pub is_negative : ℤ → Bool
is_negative (pos n) = false
is_negative (negsuc n) = true

abbrev pub is_positive : ℤ → Bool
is_positive (pos zero) = false
is_positive (pos (suc n)) = true
is_positive (negsuc n) = false

abbrev pub is_blank : Text → Bool
is_blank tool = is_empty (trim_space tool)

unfoldable pub require : AdapterDescriptor → Bool → Capability → Option Rejection
unfolding supports
require d active capability =
    if active && not (supports d capability)
    then some (Rejection.unsupported_capability capability)
    else none

unfoldable pub check_requested : AdapterDescriptor → ExecOptions → Option Rejection
check_requested d opts =
    or_else (require d (not (is_empty opts.model)) Capability.model_selection) (
      or_else (require d (not (is_empty opts.system_prompt)) Capability.system_prompt) (
        or_else (require d (is_positive opts.max_turns) Capability.max_turns) (
          or_else (require d (not (is_empty opts.resume_session_id)) Capability.resume)
            (require d (not (is_empty opts.tools)) Capability.tool_restrictions))))

-- The first thing wrong with the options of an execution, if any.
unfoldable pub validate_exec_options : AdapterDescriptor → ExecOptions → Option Rejection
unfolding validate require
validate_exec_options d opts = or_else (validate d) (
    if is_negative opts.timeout
    then some (Rejection.invalid_option (bytes "timeout"))
    else if is_negative opts.max_turns
    then some (Rejection.invalid_option (bytes "max_turns"))
    else if some_of is_blank opts.tools
    then some (Rejection.invalid_option (bytes "tools"))
    else check_requested d opts)
