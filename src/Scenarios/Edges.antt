-- ===== src/Scenarios/Edges.antt =====
-- Adapters, one-time codes, numeric codes, the bus and the sign-up policy.
use agentra.Base.{
  ℕ, ◌+◌, ◌*◌, ◌<◌, ◌≡◌, ◌↔◌, inl, inr, refl, Bool, true, false, List, [], ◌∷◌, ◌++◌, Option, none,
  some, Text, bytes, arith, if◌then◌else◌, text_eq,
}
use agentra.Adapter.Contract.{validate, validate_exec_options, check_requested, require, supports}
use agentra.Adapter.Known.{descriptor_for, codex, claude_descriptor, codex_descriptor}
use agentra.Adapter.Stages.{develop_policy, options_of, validate_adapter_for_task_type}
use agentra.Adapter.Dispatch.{loop_stages_need_claude, no_turns}
use agentra.Access.OneTime.{Store, put, take}
use agentra.Access.Redeeming.{put-take, Distinct}
use agentra.Access.Bus.{Event, Handler, Bus}
use agentra.Access.Otp.{generate, six_digits}
use agentra.Access.Numeric.{generate_words}
use agentra.Access.Signup.{
  AccessPolicy, new_access_policy, add_entries, add_entry, add_email, add_domain, valid_domain,
}

accepts : validate_exec_options claude_descriptor (options_of develop_policy) ≡ none
unfolding validate_exec_options validate check_requested require supports
accepts = refl

known_codex : descriptor_for codex ≡ some codex_descriptor
unfolding descriptor_for
known_codex = refl

loop_stages_need_claude_example :
    validate_adapter_for_task_type codex_descriptor (bytes "loop_review") ≡ no_turns
loop_stages_need_claude_example =
    loop_stages_need_claude codex codex_descriptor (bytes "loop_review") known_codex
      (inr (inr (inl refl)))

abbrev stored : Store
stored = record {
  entries =
      record { code = 11; token = 500; expires_at = 60 }
      ∷ record { code = 12; token = 501; expires_at = 90 }
      ∷ [];
  ttl = 50;
}

put-take_example :
    ((take 70 13 (put 13 40 502 stored).1).0 ≡ some 502)
    × ((take 80 13 (take 70 11 (take 70 13 (put 13 40 502 stored).1).1).1).0 ≡ none)
put-take_example = put-take stored 13 40 502 70 11 80 (omega arith)

stored-Distinct : Distinct stored.entries
unfolding Distinct
stored-Distinct = (refl, (refl, tt))

generate_words_example :
    (generate (λ i. some 2000042) none ≡ some (six_digits 42))
    ↔ ((q : ℕ) × (q < 4294) × (2000042 ≡ q * 1000000 + 42))
generate_words_example = generate_words 2000042 42 (omega arith)

abbrev words : ℕ → Option ℕ
words i = some (4294000000 + i)

generates : generate words (some 7) ≡ some (six_digits 7)
unfolding generate
generates = refl

abbrev logs : ℕ → Handler ℕ (List ℕ)
logs n e s = (true, s ++ n ∷ [])

abbrev bus : Bus ℕ (List ℕ)
bus = record { listeners = λ t. logs 1 ∷ []; global_handlers = logs 9 ∷ [] }

abbrev created : Event ℕ
created = record {
  id = 1;
  event_type = 3;
  workspace_id = 6;
  actor_type = 2;
  actor_id = 7;
  payload = 0;
}

abbrev reads_bool : Text → Option Bool
reads_bool t = if text_eq t (bytes "true") then some true else none

abbrev allowlist : Text
allowlist = bytes " ,@Corp.example, ann@b.example"

abbrev policy : AccessPolicy
policy = record {
  signup_disabled = false;
  workspace_creation_disabled = true;
  allowed_emails = bytes "ann@b.example" ∷ [];
  allowed_domains = bytes "corp.example" ∷ [];
}

reads : new_access_policy reads_bool [] (bytes "true") allowlist ≡ some policy
unfolding new_access_policy add_entries add_entry add_email add_domain valid_domain
reads = refl
