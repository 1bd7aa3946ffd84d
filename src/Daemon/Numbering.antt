-- ===== src/Daemon/Numbering.antt =====
-- The numbers of the messages that the daemon reports.
use agentra.Base.{
  ℕ, ◌+◌, ◌<◌, ◌≡◌, ◌^◌, refl, ap, Bool, true, false, List, [], ◌∷◌, ◌++◌, Option, none, Text,
  arith, if◌then◌else◌, is_empty, bytes,
}
use agentra.Daemon.Messages.{split_task_message_content}
use agentra.Daemon.Output.{
  TaskMessage, tool_use, tool_result, thinking, text, error, session, other, Output, to_int32,
  append_content, flush_thinking, flush_text, send, flush, add_message, on_message, Action, reads,
  ticks, drain, act, remember, empty_output,
}
use agentra.Daemon.Numbers.{
  all_of, all_of-append, count_seq, count_all, taken, to_int32_small, count_seq-all_of, Numbers,
  Numbers-refl, Numbers-trans, with_chunks-Numbers, same-Numbers, sent_empty,
}

module _ (to_valid : Text → Text) where
  append_content-Numbers :
      (type content : Text) (o : Output) → Numbers o (append_content to_valid type content o)
  unfolding append_content
  append_content-Numbers type content o =
      with_chunks-Numbers type (split_task_message_content to_valid content) o

  if-Numbers :
      (test : Bool) (o a b : Output) → Numbers o a → Numbers o b → Numbers o (if test then a else b)
  if-Numbers true o a b p q = p
  if-Numbers false o a b p q = q

  flush_thinking-Numbers : (o : Output) → Numbers o (flush_thinking to_valid o)
  flush_thinking-Numbers o =
      let a = append_content to_valid (bytes "thinking") o.pending_thinking o in
      if-Numbers (is_empty o.pending_thinking) o o (record a { pending_thinking = [] })
        (Numbers-refl o)
        (same-Numbers o a (record a { pending_thinking = [] }) refl refl refl
          (append_content-Numbers (bytes "thinking") o.pending_thinking o))

  pub flush_text-Numbers : (o : Output) → Numbers o (flush_text to_valid o)
  flush_text-Numbers o =
      let a = append_content to_valid (bytes "text") o.pending_text o in
      if-Numbers (is_empty o.pending_text) o o (record a { pending_text = [] }) (Numbers-refl o)
        (same-Numbers o a (record a { pending_text = [] }) refl refl refl
          (append_content-Numbers (bytes "text") o.pending_text o))

  pub send-Numbers : (o : Output) → Numbers o (send o)
  unfolding count_all
  send-Numbers o =
      if-Numbers (is_empty o.batch) o o (record o { batch = []; sent = o.sent ++ o.batch ∷ [] })
        (Numbers-refl o)
        (record {
          grows = omega arith;
          exact = λ h k. omega (arith, ap (count_seq k) (all_of-append o.sent o.batch));
        })

  pub flush-Numbers : (o : Output) → Numbers o (flush to_valid o)
  unfolding flush
  flush-Numbers o =
      let a = flush_thinking to_valid o in
      let b = flush_text to_valid a in
      Numbers-trans o a (send b) (flush_thinking-Numbers o)
        (Numbers-trans a b (send b) (flush_text-Numbers a) (send-Numbers b))

  -- The number is taken before a flush may come, and given to the message after it.
  added-Numbers :
      (between : Bool) (m : TaskMessage) (o a : Output)
      → m.seq ≡ to_int32 (o.seq + 1)
      → Numbers (record o { seq = o.seq + 1 }) a
      → Numbers o (record a { batch = a.batch ++ m ∷ [] })
  unfolding count_all count_seq
  added-Numbers between m o a e n = record {
    grows = omega (arith, n.grows);
    exact = λ h k. ground (
      arith,
      n.exact h k,
      n.grows,
      e,
      to_int32_small (o.seq + 1),
      count_seq-all_of k a.sent a.batch (m ∷ []),
    );
  }

  add_message-Numbers :
      (between : Bool) (type tool : Text) (input : Option Text) (output : Text) (o : Output)
      → Numbers o (add_message to_valid between type tool input output o)
  unfolding add_message
  add_message-Numbers true type tool input output o =
      added-Numbers true _ o (flush to_valid (record o { seq = o.seq + 1 })) refl
        (flush-Numbers (record o { seq = o.seq + 1 }))
  add_message-Numbers false type tool input output o =
      added-Numbers false _ o (record o { seq = o.seq + 1 }) refl
        (Numbers-refl (record o { seq = o.seq + 1 }))

  remembered-Numbers :
      (call tool : Text) (o a : Output) → Numbers (remember call tool o) a → Numbers o a
  unfolding count_all
  remembered-Numbers [] tool o a n = n
  remembered-Numbers (c ∷ cs) tool o a n = record { grows = n.grows; exact = n.exact }

  act-Numbers : (a : Action) (o : Output) → Numbers o (act to_valid a o)
  unfolding on_message
  act-Numbers ticks o = flush-Numbers o
  act-Numbers (reads between (tool_use call tool input)) o =
      remembered-Numbers call tool o _
        (add_message-Numbers between (bytes "tool_use") tool input [] (remember call tool o))
  act-Numbers (reads between (tool_result call tool output)) o =
      add_message-Numbers between (bytes "tool_result") _ none _ o
  act-Numbers (reads between (thinking c)) o = same-Numbers o o _ refl refl refl (Numbers-refl o)
  act-Numbers (reads between (text c)) o = same-Numbers o o _ refl refl refl (Numbers-refl o)
  act-Numbers (reads between (error c)) o = append_content-Numbers (bytes "error") c o
  act-Numbers (reads between (session id)) o = Numbers-refl o
  act-Numbers (reads between other) o = Numbers-refl o

  pub drain-Numbers : (actions : List Action) (o : Output) → Numbers o (drain to_valid actions o)
  unfolding drain
  drain-Numbers [] o = flush-Numbers o
  drain-Numbers (a ∷ rest) o =
      Numbers-trans o (act to_valid a o) (drain to_valid rest (act to_valid a o)) (act-Numbers a o)
        (drain-Numbers rest (act to_valid a o))

  pub drain_empty : (actions : List Action) (o : Output) → (drain to_valid actions o).batch ≡ []
  unfolding drain flush
  drain_empty [] o = sent_empty (flush_text to_valid (flush_thinking to_valid o))
  drain_empty (a ∷ rest) o = drain_empty rest (act to_valid a o)

  -- Whatever the agent says and whenever the ticker fires, the batches that the daemon sends have the
  -- numbers from 1 to the last one, each of them once, if there are fewer than 2^31.
  pub drain_numbers :
      (actions : List Action) (k : ℕ)
      → (drain to_valid actions empty_output).seq < 2 ^ 31
      → count_seq k (all_of (drain to_valid actions empty_output).sent [])
        ≡ taken k (drain to_valid actions empty_output).seq
  unfolding count_all count_seq all_of
  drain_numbers actions k h =
      let n = (drain-Numbers actions empty_output).exact h k in
      let e =
        ap (λ b. count_seq k (all_of (drain to_valid actions empty_output).sent b))
          (drain_empty actions empty_output) in
      ground (arith, n, e)
