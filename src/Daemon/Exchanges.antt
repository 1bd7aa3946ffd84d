-- ===== src/Daemon/Exchanges.antt =====
-- The calls of tools and their results that the daemon reports (server/internal/daemon/daemon.go).
use agentra.Base.{
  ℕ, zero, suc, ◌+◌, ◌≤◌, ◌≡◌, refl, sym, ap, ◌∙◌, Bool, true, false, List, [], ◌∷◌, ◌++◌, Option,
  none, some, Text, arith, if◌then◌else◌, ltb, length, take, is_empty, text_eq, bytes,
}
use mathlib.Core.List.{append-nil, append_assoc}
use agentra.Daemon.Messages.{split_task_message_content}
use agentra.Daemon.Output.{
  TaskMessage, tool_use, tool_result, thinking, text, error, session, other, Output, to_int32,
  numbered, with_chunks, append_content, flush_thinking, flush_text, send, flush, add_message,
  on_message, Action, reads, ticks, drain, act, remember, tool_name, max_output, empty_output,
}
use agentra.Daemon.Numbers.{all_of, all_of-append}
use agentra.Daemon.Numbering.{drain_empty}

-- A call with its tool and its input, or what a tool answered.
pub data Exchange : Type 0 where
  call : Text → Option Text → Exchange
  result : Text → Exchange

abbrev pub exchange_of : TaskMessage → List Exchange
exchange_of m =
    if text_eq m.type (bytes "tool_use")
    then call m.tool m.input ∷ []
    else if text_eq m.type (bytes "tool_result")
    then result m.output ∷ []
    else []

unfoldable pub exchanges : List TaskMessage → List Exchange
exchanges [] = []
exchanges (m ∷ ms) = exchange_of m ++ exchanges ms

-- What the agent said of tools, each result up to its limit.
abbrev pub exchange_in : Action → List Exchange
exchange_in (reads between (tool_use id tool input)) = call tool input ∷ []
exchange_in (reads between (tool_result id tool output)) = result (take max_output output) ∷ []
exchange_in _ = []

unfoldable pub exchanges_in : List Action → List Exchange
exchanges_in [] = []
exchanges_in (a ∷ rest) = exchange_in a ++ exchanges_in rest

exchanges-append : (xs ys : List TaskMessage) → exchanges (xs ++ ys) ≡ exchanges xs ++ exchanges ys
unfolding exchanges
exchanges-append [] ys = refl
exchanges-append (x ∷ xs) ys =
    ap (λ r. exchange_of x ++ r) (exchanges-append xs ys)
    ∙ sym (append_assoc (exchange_of x) (exchanges xs) (exchanges ys))

-- Those of all that was put into a batch.
unfoldable reported : Output → List Exchange
reported o = exchanges (all_of o.sent o.batch)

more :
    (bs : List (List TaskMessage)) (xs ys : List TaskMessage)
    → exchanges (all_of bs (xs ++ ys)) ≡ exchanges (all_of bs xs) ++ exchanges ys
unfolding all_of
more [] xs ys = exchanges-append xs ys
more (b ∷ bs) xs ys =
    exchanges-append b (all_of bs (xs ++ ys))
    ∙ ap (λ r. exchanges b ++ r) (more bs xs ys)
    ∙ sym (append_assoc (exchanges b) (exchanges (all_of bs xs)) (exchanges ys))
    ∙ ap (λ r. r ++ exchanges ys) (sym (exchanges-append b (all_of bs xs)))

-- Messages of a type without a tool.
abbrev IsContent : Text → Type 0
IsContent type =
    (text_eq type (bytes "tool_use") ≡ false) × (text_eq type (bytes "tool_result") ≡ false)

numbered_silent :
    (n : ℕ) (type : Text) (cs : List Text) → IsContent type → exchanges (numbered n type cs) ≡ []
unfolding exchanges numbered
numbered_silent n type [] k = refl
numbered_silent n type (c ∷ cs) k = rw (k.0, k.1) (numbered_silent (n + 1) type cs k)

chunks_silent :
    (type : Text) (parts : Option (List Text)) (o : Output)
    → IsContent type
    → reported (with_chunks type parts o) ≡ reported o
unfolding reported
chunks_silent type none o k = refl
chunks_silent type (some parts) o k =
    more o.sent o.batch (numbered o.seq type parts)
    ∙ ap (λ r. exchanges (all_of o.sent o.batch) ++ r) (numbered_silent o.seq type parts k)
    ∙ append-nil (exchanges (all_of o.sent o.batch))

if_silent :
    (test : Bool) (o a b : Output)
    → reported a ≡ reported o
    → reported b ≡ reported o
    → reported (if test then a else b) ≡ reported o
if_silent true o a b p q = p
if_silent false o a b p q = q

send_silent : (o : Output) → reported (send o) ≡ reported o
unfolding reported
send_silent o =
    if_silent (is_empty o.batch) o o (record o { batch = []; sent = o.sent ++ o.batch ∷ [] }) refl
      (ap exchanges (all_of-append o.sent o.batch))

take_all : (n : ℕ) (xs : Text) → length xs ≤ n → take n xs ≡ xs
take_all zero [] h = refl
take_all zero (x ∷ xs) h = absurd (omega (arith, h))
take_all (suc n) [] h = refl
take_all (suc n) (x ∷ xs) h = ap (λ r. x ∷ r) (take_all n xs (omega (arith, h)))

cut_output :
    (test : Bool) (output : Text)
    → ltb max_output (length output) ≡ test
    → (if test then take max_output output else output) ≡ take max_output output
cut_output true output e = refl
cut_output false output e = sym (take_all max_output output (ground (arith, e)))

module _ (to_valid : Text → Text) where
  append_silent :
      (type content : Text) (o : Output)
      → IsContent type
      → reported (append_content to_valid type content o) ≡ reported o
  unfolding append_content
  append_silent type content o k =
      chunks_silent type (split_task_message_content to_valid content) o k

  flush_silent : (o : Output) → reported (flush to_valid o) ≡ reported o
  unfolding flush reported
  flush_silent o =
      let a = flush_thinking to_valid o in
      send_silent (flush_text to_valid a)
      ∙ if_silent (is_empty a.pending_text) a a
          (record (append_content to_valid (bytes "text") a.pending_text a) { pending_text = [] })
          refl (append_silent (bytes "text") a.pending_text a (refl, refl))
      ∙ if_silent (is_empty o.pending_thinking) o o
          (record (append_content to_valid (bytes "thinking") o.pending_thinking o) {
            pending_thinking = [];
          })
          refl (append_silent (bytes "thinking") o.pending_thinking o (refl, refl))

  added :
      (m : TaskMessage) (o a : Output)
      → reported a ≡ reported o
      → reported (record a { batch = a.batch ++ m ∷ [] }) ≡ reported o ++ exchanges (m ∷ [])
  unfolding reported
  added m o a p = more a.sent a.batch (m ∷ []) ∙ ap (λ r. r ++ exchanges (m ∷ [])) p

  -- Between the number of a message and the message, the ticker may flush.
  ticked :
      (between : Bool) (o : Output)
      → reported (
          if between
          then flush to_valid (record o { seq = o.seq + 1 })
          else record o { seq = o.seq + 1 })
        ≡ reported o
  unfolding reported
  ticked between o =
      let o' = record o { seq = o.seq + 1 } in
      if_silent between o' (flush to_valid o') o' (flush_silent o') refl

  add_message-exchanges :
      (between : Bool) (type tool : Text) (input : Option Text) (output : Text) (o : Output)
      → reported (add_message to_valid between type tool input output o)
        ≡ reported o
          ++ exchanges (
              record {
                seq = to_int32 (o.seq + 1);
                type = type;
                tool = tool;
                content = [];
                input = input;
                output = output;
              }
              ∷ [])
  unfolding add_message
  add_message-exchanges between type tool input output o = added _ o _ (ticked between o)

  act-exchange_in :
      (a : Action) (o : Output) → reported (act to_valid a o) ≡ reported o ++ exchange_in a
  unfolding on_message reported exchanges
  act-exchange_in ticks o = flush_silent o ∙ sym (append-nil (reported o))
  act-exchange_in (reads between (tool_use id tool input)) o =
      add_message-exchanges between (bytes "tool_use") tool input [] (remember id tool o)
      ∙ ap (λ r. r ++ call tool input ∷ [])
          (if_silent (is_empty id) o o (record o { tools = (id, tool) ∷ o.tools }) refl refl)
  act-exchange_in (reads between (tool_result id tool output)) o =
      add_message-exchanges between (bytes "tool_result") (tool_name id tool o) none _ o
      ∙ ap (λ s. reported o ++ result s ∷ [])
          (cut_output (ltb max_output (length output)) output refl)
  act-exchange_in (reads between (thinking c)) o = sym (append-nil (reported o))
  act-exchange_in (reads between (text c)) o = sym (append-nil (reported o))
  act-exchange_in (reads between (error c)) o =
      append_silent (bytes "error") c o (refl, refl) ∙ sym (append-nil (reported o))
  act-exchange_in (reads between (session id)) o = sym (append-nil (reported o))
  act-exchange_in (reads between other) o = sym (append-nil (reported o))

  drain-exchanges_in :
      (actions : List Action) (o : Output)
      → reported (drain to_valid actions o) ≡ reported o ++ exchanges_in actions
  unfolding drain exchanges_in
  drain-exchanges_in [] o = flush_silent o ∙ sym (append-nil (reported o))
  drain-exchanges_in (a ∷ rest) o =
      drain-exchanges_in rest (act to_valid a o)
      ∙ ap (λ r. r ++ exchanges_in rest) (act-exchange_in a o)
      ∙ append_assoc (reported o) (exchange_in a) (exchanges_in rest)

  -- Whatever the agent says and whenever the ticker fires, the batches that the daemon sends have each
  -- call of a tool and each result, in the order in which the agent gave them: a call with its tool and
  -- its input, and the first 8192 bytes of a result.
  pub exchanges-drain :
      (actions : List Action)
      → exchanges (all_of (drain to_valid actions empty_output).sent []) ≡ exchanges_in actions
  unfolding reported exchanges all_of
  exchanges-drain actions =
      ap (λ b. exchanges (all_of (drain to_valid actions empty_output).sent b))
        (sym (drain_empty to_valid actions empty_output))
      ∙ drain-exchanges_in actions empty_output
