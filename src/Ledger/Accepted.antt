-- ===== src/Ledger/Accepted.antt =====
-- The server takes what the daemon reports: the limits of server/internal/handler/daemon.go are met by
-- server/internal/daemon/daemon.go and client.go.
use agentra.Base.{
  ℕ, ◌+◌, ◌<◌, ◌≡◌, ◌∙◌, ◌^◌, refl, sym, ap, subst, Bool, true, false, List, [], ◌∷◌, ◌++◌, Option,
  none, some, Text, arith, if◌then◌else◌, length, is_empty, bytes,
}
use agentra.Daemon.Messages.{task_message_field_bytes}
use agentra.Daemon.Splitting.{split_task_message_content-Split, all_fit}
use agentra.Daemon.Output.{
  TaskMessage, tool_use, tool_result, thinking, text, error, session, other, Output, to_int32,
  numbered, with_chunks, append_content, flush_thinking, flush_text, send, flush, add_message,
  on_message, Action, reads, ticks, drain, act, remember, tool_name,
}
use agentra.Daemon.Numbers.{all_of, all_of-append}
use agentra.Daemon.Numbering.{flush-Numbers, flush_text-Numbers, send-Numbers, drain-Numbers}
use agentra.Ledger.Reports.{validate_task_message, fits, input_fits}
use agentra.Ledger.Limits.{
  any_invalid, any_invalid-all_of, in_range_lem, Known, numbered_valid, all_short, Valid,
  modest_action, all_modest, tool_name-fits, output_fits,
}

-- The tools, the batch and what was sent are all that matters.
same-Valid :
    (a b : Output) → a.tools ≡ b.tools → a.batch ≡ b.batch → a.sent ≡ b.sent → Valid a → Valid b
same-Valid a b t f g v = record {
  messages = (λ i. any_invalid (all_of (sym g i) (sym f i))) ∙ v.messages;
  short = ap all_short (sym t) ∙ v.short;
}

chunks-Valid :
    (type : Text) (parts : List Text) (o : Output)
    → Known type
    → all_fit task_message_field_bytes parts ≡ true
    → o.seq + length parts < 2 ^ 31
    → Valid o
    → Valid (with_chunks type (some parts) o)
chunks-Valid type parts o k f h v = record {
  messages = ground (
    arith,
    any_invalid-all_of o.sent o.batch (numbered o.seq type parts),
    numbered_valid o.seq type parts h k f,
    v.messages,
  );
  short = v.short;
}

added-Valid :
    (m : TaskMessage) (o : Output)
    → validate_task_message m ≡ true
    → Valid o
    → Valid (record o { batch = o.batch ++ m ∷ [] })
added-Valid m o h v = record {
  messages = ground (arith, any_invalid-all_of o.sent o.batch (m ∷ []), h, v.messages);
  short = v.short;
}

if-Valid : (test : Bool) (a b : Output) → Valid a → Valid b → Valid (if test then a else b)
if-Valid true a b p q = p
if-Valid false a b p q = q

send-Valid : (o : Output) → Valid o → Valid (send o)
send-Valid o v =
    if-Valid (is_empty o.batch) o (record o { batch = []; sent = o.sent ++ o.batch ∷ [] }) v
      (record {
        messages = ap any_invalid (all_of-append o.sent o.batch) ∙ v.messages;
        short = v.short;
      })

remembered-Valid :
    (call tool : Text) (o : Output) → fits tool ≡ true → Valid o → Valid (remember call tool o)
unfolding all_short
remembered-Valid [] tool o f v = v
remembered-Valid (c ∷ cs) tool o f v = record {
  messages = v.messages;
  short = ground (arith, f, v.short);
}

module _ (to_valid : Text → Text) where
  append_content-Valid :
      (type content : Text) (o : Output)
      → Known type
      → (append_content to_valid type content o).seq < 2 ^ 31
      → Valid o
      → Valid (append_content to_valid type content o)
  unfolding append_content
  append_content-Valid type content o k h v =
      let (parts, e, _, f) = split_task_message_content-Split to_valid content in
      subst (λ x. Valid (with_chunks type x o)) (sym e)
        (chunks-Valid type parts o k f (subst (λ x. (with_chunks type x o).seq < 2 ^ 31) e h) v)

  -- A flush of what is pending is made only when there is some, so a bound on the numbers holds of
  -- what was appended in that case.
  pending-Valid :
      (pending type : Text) (o a : Output)
      → ((if is_empty pending then o else a).seq < 2 ^ 31)
      → (a.seq < 2 ^ 31 → Valid a)
      → Valid o
      → Valid (if is_empty pending then o else a)
  pending-Valid [] type o a h p v = v
  pending-Valid (c ∷ cs) type o a h p v = p h

  flush_thinking-Valid :
      (o : Output)
      → (flush_thinking to_valid o).seq < 2 ^ 31
      → Valid o
      → Valid (flush_thinking to_valid o)
  flush_thinking-Valid o h v =
      let a = append_content to_valid (bytes "thinking") o.pending_thinking o in
      pending-Valid o.pending_thinking (bytes "thinking") o (record a { pending_thinking = [] }) h
        (λ k.
          same-Valid a (record a { pending_thinking = [] }) refl refl refl
            (append_content-Valid (bytes "thinking") o.pending_thinking o refl k v))
        v

  flush_text-Valid :
      (o : Output) → (flush_text to_valid o).seq < 2 ^ 31 → Valid o → Valid (flush_text to_valid o)
  flush_text-Valid o h v =
      let a = append_content to_valid (bytes "text") o.pending_text o in
      pending-Valid o.pending_text (bytes "text") o (record a { pending_text = [] }) h
        (λ k.
          same-Valid a (record a { pending_text = [] }) refl refl refl
            (append_content-Valid (bytes "text") o.pending_text o refl k v))
        v

  flush-Valid : (o : Output) → (flush to_valid o).seq < 2 ^ 31 → Valid o → Valid (flush to_valid o)
  unfolding flush
  flush-Valid o h v =
      let a = flush_thinking to_valid o in
      let b = flush_text to_valid a in
      let hb : b.seq < 2 ^ 31 = omega (arith, (send-Numbers to_valid b).grows) in
      let ha : a.seq < 2 ^ 31 = omega (arith, (flush_text-Numbers to_valid a).grows) in
      send-Valid b (flush_text-Valid a hb (flush_thinking-Valid o ha v))

  tool_valid :
      (n : ℕ) (type tool : Text) (input : Option Text) (output : Text)
      → n + 1 < 2 ^ 31
      → Known type
      → fits tool ≡ true
      → input_fits input ≡ true
      → fits output ≡ true
      → validate_task_message (record {
        seq = to_int32 (n + 1);
        type = type;
        tool = tool;
        content = [];
        input = input;
        output = output;
      })
        ≡ true
  unfolding validate_task_message
  tool_valid n type tool input output h k f g e = ground (arith, in_range_lem n h, k, f, g, e)

  add_message-Valid :
      (between : Bool) (type tool : Text) (input : Option Text) (output : Text) (o : Output)
      → (add_message to_valid between type tool input output o).seq < 2 ^ 31
      → Known type
      → fits tool ≡ true
      → input_fits input ≡ true
      → fits output ≡ true
      → Valid o
      → Valid (add_message to_valid between type tool input output o)
  unfolding add_message
  add_message-Valid true type tool input output o h k f g e v =
      let o' = record o { seq = o.seq + 1 } in
      added-Valid _ (flush to_valid o')
        (tool_valid o.seq type tool input output (omega (arith, (flush-Numbers to_valid o').grows))
          k f g e)
        (flush-Valid o' h (record { messages = v.messages; short = v.short }))
  add_message-Valid false type tool input output o h k f g e v =
      added-Valid _ (record o { seq = o.seq + 1 })
        (tool_valid o.seq type tool input output h k f g e)
        (record { messages = v.messages; short = v.short })

  act-Valid :
      (a : Action) (o : Output)
      → (act to_valid a o).seq < 2 ^ 31
      → modest_action a ≡ true
      → Valid o
      → Valid (act to_valid a o)
  unfolding on_message
  act-Valid ticks o h m v = flush-Valid o h v
  act-Valid (reads between (tool_use call tool input)) o h m v =
      let f : fits tool ≡ true = ground (arith, m) in
      add_message-Valid between (bytes "tool_use") tool input [] (remember call tool o) h refl f
        (ground (arith, m)) refl (remembered-Valid call tool o f v)
  act-Valid (reads between (tool_result call tool output)) o h m v =
      add_message-Valid between (bytes "tool_result") (tool_name call tool o) none _ o h refl
        (tool_name-fits call tool o m v.short) refl (output_fits output) v
  act-Valid (reads between (thinking c)) o h m v = same-Valid o _ refl refl refl v
  act-Valid (reads between (text c)) o h m v = same-Valid o _ refl refl refl v
  act-Valid (reads between (error c)) o h m v = append_content-Valid (bytes "error") c o refl h v
  act-Valid (reads between (session id)) o h m v = v
  act-Valid (reads between other) o h m v = v

  pub drain-Valid :
      (actions : List Action) (o : Output)
      → (drain to_valid actions o).seq < 2 ^ 31
      → all_modest actions ≡ true
      → Valid o
      → Valid (drain to_valid actions o)
  unfolding drain all_modest
  drain-Valid [] o h m v = flush-Valid o h v
  drain-Valid (a ∷ rest) o h m v =
      let o' = act to_valid a o in
      drain-Valid rest o' h (ground (arith, m)) (
        act-Valid a o (omega (arith, (drain-Numbers to_valid rest o').grows)) (ground (arith, m)) v)
