-- ===== src/Ledger/Limits.antt =====
-- The limits of the server on a message (server/internal/handler/daemon.go), met by the parts of one of
-- the daemon (server/internal/daemon/daemon.go).
use agentra.Base.{
  length-take-le, ℕ, ◌+◌, ◌≤◌, ◌<◌, ◌≡◌, ◌^◌, refl, Bool, true, false, not, ◌&&◌, ◌||◌, List, [],
  ◌∷◌, ◌++◌, Text, arith, if◌then◌else◌, ltb, length, take, some_of, text_eq,
}
use agentra.Daemon.Messages.{task_message_field_bytes}
use agentra.Daemon.Splitting.{all_fit}
use agentra.Daemon.Output.{
  TaskMessage, AgentMessage, tool_use, tool_result, Output, to_int32, content_message, numbered,
  Action, reads, ticks, tool_of, tool_name, max_output,
}
use agentra.Daemon.Numbers.{all_of, to_int32_small}
use agentra.Ledger.Reports.{validate_task_message, fits, input_fits, types, in_range}

-- Some message would be refused.
abbrev pub any_invalid : List TaskMessage → Bool
any_invalid ms = some_of (λ m. not (validate_task_message m)) ms

pub any_invalid-append :
    (xs ys : List TaskMessage) → any_invalid (xs ++ ys) ≡ (any_invalid xs || any_invalid ys)
any_invalid-append [] ys = refl
any_invalid-append (x ∷ xs) ys = ground (arith, any_invalid-append xs ys)

pub any_invalid-all_of :
    (bs : List (List TaskMessage)) (xs ys : List TaskMessage)
    → any_invalid (all_of bs (xs ++ ys)) ≡ (any_invalid (all_of bs xs) || any_invalid ys)
unfolding all_of
any_invalid-all_of [] xs ys = any_invalid-append xs ys
any_invalid-all_of (b ∷ bs) xs ys = ground (
  arith,
  any_invalid-append b (all_of bs (xs ++ ys)),
  any_invalid-append b (all_of bs xs),
  any_invalid-all_of bs xs ys,
)

pub in_range_lem : (n : ℕ) → n + 1 < 2 ^ 31 → in_range (to_int32 (n + 1)) ≡ true
in_range_lem n h = rw (to_int32_small (n + 1) h) (ground arith)

-- A type of which a message may be.
abbrev pub Known : Text → Type 0
Known type = some_of (λ t. text_eq t type) types ≡ true

content_valid :
    (n : ℕ) (type c : Text)
    → n + 1 < 2 ^ 31
    → Known type
    → fits c ≡ true
    → validate_task_message (content_message (n + 1) type c) ≡ true
unfolding validate_task_message
content_valid n type c h k f = ground (arith, in_range_lem n h, k, f)

pub numbered_valid :
    (n : ℕ) (type : Text) (cs : List Text)
    → n + length cs < 2 ^ 31
    → Known type
    → all_fit task_message_field_bytes cs ≡ true
    → any_invalid (numbered n type cs) ≡ false
unfolding numbered all_fit
numbered_valid n type [] h k f = refl
numbered_valid n type (c ∷ cs) h k f =
    ground
      (arith, content_valid n type c (omega arith) k (ground arith), numbered_valid (n + 1) type cs)

-- The tools that are remembered have names that fit.
unfoldable pub all_short : List (Text × Text) → Bool
all_short [] = true
all_short ((c, tool) ∷ rest) = fits tool && all_short rest

-- What is in a batch or was sent will be accepted.
pub record Valid (o : Output) : Type 0 where
  pub messages : any_invalid (all_of o.sent o.batch) ≡ false
  pub short : all_short o.tools ≡ true

abbrev modest : AgentMessage → Bool
modest (tool_use call tool input) = fits tool && input_fits input
modest (tool_result call tool output) = fits tool
modest _ = true

abbrev pub modest_action : Action → Bool
modest_action (reads between m) = modest m
modest_action ticks = true

-- The names of tools and the inputs that the agent gives them are within the limits.
unfoldable pub all_modest : List Action → Bool
all_modest [] = true
all_modest (a ∷ rest) = modest_action a && all_modest rest

tool_of-fits :
    (call : Text) (tools : List (Text × Text))
    → all_short tools ≡ true
    → fits (tool_of call tools) ≡ true
unfolding all_short
tool_of-fits call [] s = refl
tool_of-fits call ((c, tool) ∷ rest) s = ground (arith, tool_of-fits call rest)

pub tool_name-fits :
    (call tool : Text) (o : Output)
    → fits tool ≡ true
    → all_short o.tools ≡ true
    → fits (tool_name call tool o) ≡ true
tool_name-fits call tool o f s = ground (arith, f, tool_of-fits call o.tools s)

fits_le : (s : Text) → length s ≤ max_output → fits s ≡ true
fits_le s h = ground (arith, h)

cut_fits :
    (test : Bool) (output : Text)
    → ltb max_output (length output) ≡ test
    → fits (if test then take max_output output else output) ≡ true
cut_fits true output e = fits_le (take max_output output) (length-take-le max_output output)
cut_fits false output e = fits_le output (ground (arith, e))

pub output_fits :
    (output : Text)
    → fits (if ltb max_output (length output) then take max_output output else output) ≡ true
output_fits output = cut_fits (ltb max_output (length output)) output refl
