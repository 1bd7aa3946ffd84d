-- ===== src/Ledger/Arrival.antt =====
-- What an agent puts out arrives: the daemon (server/internal/daemon/daemon.go and client.go) and the
-- server (server/internal/handler/daemon.go) together.
use agentra.Base.{
  ℕ, suc, ◌≤◌, ◌<◌, ◌^◌, ◌≡◌, ◌∙◌, refl, sym, ap, subst, Bool, true, false, List, [], ◌∷◌, ◌++◌,
  Text, arith, ◌==◌, length, some_of,
}
use agentra.Members.Guards.{named}
use agentra.Daemon.Output.{TaskMessage, Action, drain, empty_output}
use agentra.Daemon.Numbers.{all_of, taken}
use agentra.Daemon.Numbering.{drain_numbers}
use agentra.Ledger.Reports.{
  Ledger, Outcome, kept, stale, refused, Reply, done, persist_task_message, persist_all,
}
use agentra.Ledger.Guarded.{with_rows}
use agentra.Ledger.Storing.{then_all}
use agentra.Ledger.Repeats.{all-Done}
use agentra.Ledger.Limits.{any_invalid, any_invalid-append, all_modest}
use agentra.Ledger.Delivered.{
  all_validated, all_requests, requests_of, requests_validated, requests_whole, sent_valid,
}
use agentra.Ledger.Posting.{Carried, unless_failed, post, deliver}
use agentra.Ledger.Passing.{Ready, same_Ready, report_passes}
use agentra.Ledger.Fresh.{rows_of, persist_all_new, counted_distinct, none_before}

Carried-append :
    (size : List TaskMessage → ℕ) (wire : List TaskMessage → List TaskMessage)
    (rs qs : List (List TaskMessage))
    → Carried size wire (rs ++ qs)
    → Carried size wire rs × Carried size wire qs
Carried-append size wire [] qs c = (tt, c)
Carried-append size wire (r ∷ rs) qs c =
    let (a, b) = Carried-append size wire rs qs c.2 in ((c.0, c.1, a), b)

taken_le : (k n : ℕ) → taken k n ≤ 1
taken_le k n = ground arith

module _ (redact_text : Text → Text) (redact_input : Text → Text) (task run : ℕ) where
  -- The state between two parts of messages that were all taken.
  abbrev Halfway : List TaskMessage → List TaskMessage → Ledger → Ledger → Type 0
  Halfway xs ys l k =
      (n : Ledger) × (persist_all redact_text redact_input task run xs l ≡ (done, n))
      × (persist_all redact_text redact_input task run ys n ≡ (done, k))

  split_first :
      (xs ys : List TaskMessage) (l k : Ledger) (o : Outcome)
      → then_all redact_text redact_input task run (xs ++ ys) l o ≡ (done, k)
      → ((m : Ledger)
          → persist_all redact_text redact_input task run (xs ++ ys) m ≡ (done, k)
          → Halfway xs ys m k)
      → (n : Ledger) × (then_all redact_text redact_input task run xs l o ≡ (done, n))
        × (persist_all redact_text redact_input task run ys n ≡ (done, k))
  split_first xs ys l k (kept m) h ih = ih m h
  split_first xs ys l k stale h ih = absurd (cc)
  split_first xs ys l k refused h ih = absurd (cc)

  split :
      (xs ys : List TaskMessage) (l k : Ledger)
      → persist_all redact_text redact_input task run (xs ++ ys) l ≡ (done, k)
      → Halfway xs ys l k
  unfolding persist_all
  split [] ys l k h = (l, refl, h)
  split (x ∷ xs) ys l k h =
      split_first xs ys l k (persist_task_message redact_text redact_input task run x l) h
        (λ m e. split xs ys m k e)

  module _ (size : List TaskMessage → ℕ) (wire : List TaskMessage → List TaskMessage)
      (user workspace : ℕ) (canonical : Bool) where
    still_Ready :
        (xs : List TaskMessage) (l n : Ledger)
        → Ready task run user workspace l
        → persist_all redact_text redact_input task run xs l ≡ (done, n)
        → Ready task run user workspace n
    still_Ready xs l n r h =
        subst (λ (x : Ledger). Ready task run user workspace x)
          (sym (all-Done redact_text redact_input task run xs l n h).rest)
          (same_Ready task run user workspace l r n.messages n.published)

    post_all :
        (rs : List (List TaskMessage)) (l k : Ledger)
        → Ready task run user workspace l
        → Carried size wire rs
        → all_validated rs ≡ true
        → persist_all redact_text redact_input task run (all_of rs []) l ≡ (done, k)
        → post size wire redact_text redact_input task run (named user canonical) rs l ≡ (done, k)
    unfolding post all_validated all_of persist_all
    post_all [] l k r c a h = h
    post_all (x ∷ rs) l k r c a h =
        let (n, first, rest) = split x (all_of rs []) l k h in
        ap
          (unless_failed
            (post size wire redact_text redact_input task run (named user canonical) rs))
          (report_passes task run user workspace l r redact_text redact_input size wire canonical x
              c.0 c.1 (ground (arith, a))
            ∙ first)
        ∙ post_all rs n k (still_Ready x l n r first) c.2 (ground (arith, a)) rest

    deliver_all :
        (bs : List (List TaskMessage)) (l k : Ledger)
        → Ready task run user workspace l
        → Carried size wire (all_requests bs)
        → any_invalid (all_of bs []) ≡ false
        → persist_all redact_text redact_input task run (all_of bs []) l ≡ (done, k)
        → deliver size wire redact_text redact_input task run (named user canonical) bs l ≡ k
    unfolding deliver all_of all_requests persist_all
    deliver_all [] l k r c v h = ap (λ (q : Reply × Ledger). q.1) h
    deliver_all (b ∷ bs) l k r c v h =
        let (now, later) = Carried-append size wire (requests_of b) (all_requests bs) c in
        let valid = any_invalid-append b (all_of bs []) in
        let (n, first, rest) = split b (all_of bs []) l k h in
        let posted =
          post_all (requests_of b) l n r now
            (requests_validated (suc (length b)) b (ground (arith, valid)))
            (subst (λ x. persist_all redact_text redact_input task run x l ≡ (done, n))
              (sym (requests_whole (suc (length b)) b (omega arith))) first) in
        ap
          (λ (q : Reply × Ledger).
            deliver size wire redact_text redact_input task run (named user canonical) bs q.1)
          posted
        ∙ deliver_all bs n k (still_Ready b l n r first) later (ground (arith, valid)) rest

    -- When the run is active and the database answers, the names of tools and the inputs that the agent
    -- gives them are within the limits, it has fewer than 2^31 messages, none of the run is stored yet,
    -- and the JSON of each request is no longer than the server reads and is decoded to what was encoded,
    -- then all that the daemon flushes is stored and published, each message once, in order.
    pub drain_delivered :
        (to_valid : Text → Text) (actions : List Action) (l : Ledger)
        → Ready task run user workspace l
        → some_of (λ m. m.run_id == run) l.messages ≡ false
        → all_modest actions ≡ true
        → Carried size wire (all_requests (drain to_valid actions empty_output).sent)
        → (drain to_valid actions empty_output).seq < 2 ^ 31
        → deliver size wire redact_text redact_input task run
            (named user canonical)
            (drain to_valid actions empty_output).sent
            l
          ≡ with_rows l
              (l.messages
                ++ rows_of redact_text redact_input task run
                    (all_of (drain to_valid actions empty_output).sent []))
              (l.published
                ++ rows_of redact_text redact_input task run
                    (all_of (drain to_valid actions empty_output).sent []))
    drain_delivered to_valid actions l r f m c h =
        let ms = all_of (drain to_valid actions empty_output).sent [] in
        let v = sent_valid to_valid actions m h in
        deliver_all (drain to_valid actions empty_output).sent l _ r c v (
          persist_all_new redact_text redact_input task run user workspace ms l r
            (none_before run ms l.messages f)
            (counted_distinct ms
              (λ k. omega (
                arith,
                drain_numbers to_valid actions k h,
                taken_le k (drain to_valid actions empty_output).seq,
              ))
              v))
