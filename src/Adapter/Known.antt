-- ===== src/Adapter/Known.antt =====
-- The three known adapters (server/pkg/agent/contract.go).
use agentra.Base.{List, [], ◌∷◌, Option, none, some, Text, bytes, text_eq, if◌then◌else◌, ◌==◌}
use agentra.Adapter.Contract.{
  Capability, position, CapabilitySupport, SupportLevel, AdapterDescriptor, all_capabilities,
}

abbrev Capabilities : Type 0
Capabilities = Capability → Option CapabilitySupport

abbrev set : SupportLevel → (Capability → Text) → List Capability → Capabilities → Capabilities
set level details [] caps = caps
set level details (c ∷ cs) caps = set level details cs (λ x.
    if position x == position c
    then some (record { level = level; detail = details c })
    else caps x)

abbrev no_detail : Capability → Text
no_detail c = []

abbrev pub descriptor :
    Text → List Capability → List Capability → (Capability → Text) → AdapterDescriptor
descriptor provider native adapter details = record {
  provider = provider;
  transport = bytes "cli";
  capabilities = set SupportLevel.adapter details adapter (
      set SupportLevel.native details native
        (set SupportLevel.unsupported no_detail all_capabilities (λ c. none)));
}

abbrev pub claude : Text
claude = bytes "claude"

abbrev pub codex : Text
codex = bytes "codex"

abbrev pub opencode : Text
opencode = bytes "opencode"

abbrev details_of : Text → Text → Capability → Text
details_of cancel skills Capability.cancel = cancel
details_of cancel skills Capability.skills = skills
details_of cancel skills _ = []

abbrev supplied : List Capability
supplied = Capability.discover ∷ Capability.cancel ∷ Capability.skills ∷ []

abbrev pub claude_descriptor : AdapterDescriptor
claude_descriptor =
    descriptor claude
      (Capability.execute ∷ Capability.stream ∷ Capability.resume ∷ Capability.model_selection
        ∷ Capability.system_prompt ∷ Capability.max_turns ∷ Capability.tool_restrictions
        ∷ Capability.usage ∷ [])
      supplied
      (details_of (bytes "context cancellation terminates the CLI process tree with a bounded wait")
        (bytes "skills are installed into the per-task .claude/skills directory before launch"))

abbrev plain : List Capability
plain =
    Capability.execute ∷ Capability.stream ∷ Capability.resume ∷ Capability.model_selection
    ∷ Capability.system_prompt ∷ Capability.usage ∷ []

abbrev pub codex_descriptor : AdapterDescriptor
codex_descriptor = descriptor codex plain supplied (
    details_of
      (bytes "context cancellation terminates the app-server process tree with a bounded wait")
      (bytes "skills are installed into the isolated per-task CODEX_HOME before launch"))

abbrev pub opencode_descriptor : AdapterDescriptor
opencode_descriptor = descriptor opencode plain supplied (
    details_of (bytes "context cancellation terminates the CLI process tree with a bounded wait") (
      bytes
        "skills are installed into the per-task .config/opencode/skills directory before launch"))

-- Copies are equal to what they copy, so cloneDescriptor is left out.
unfoldable pub descriptor_for : Text → Option AdapterDescriptor
descriptor_for provider =
    if text_eq provider claude
    then some claude_descriptor
    else if text_eq provider codex
    then some codex_descriptor
    else if text_eq provider opencode
    then some opencode_descriptor
    else none
