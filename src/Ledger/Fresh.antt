-- ===== src/Ledger/Fresh.antt =====
-- Messages that are new to the ledger (server/internal/handler/daemon.go).
use agentra.Base.{
  ℕ, suc, ◌≤◌, ◌≡◌, ◌∙◌, refl, sym, ap, subst, Bool, true, false, not, ◌&&◌, List, [], ◌∷◌, ◌++◌,
  Text, arith, if◌then◌else◌, ◌==◌, ==_iff, some_of,
}
use mathlib.Core.List.{append-nil, append_assoc}
use agentra.Lifecycle.Transitions.{ℤ, pos, negsuc}
use agentra.Daemon.Output.{TaskMessage}
use agentra.Ledger.Reports.{
  validate_task_message, in_range, MessageRow, Ledger, seq_eq, clashes, done, row_of, persist_all,
}
use agentra.Ledger.Guarded.{with_rows}
use agentra.Ledger.Storing.{some_of-append, added}
use agentra.Daemon.Numbers.{count_seq, is_pos}
use agentra.Ledger.Limits.{any_invalid}
use agentra.Ledger.Passing.{Ready, same_Ready, persist_new}

-- No message has been stored for the run, by its number.
unfoldable pub none_stored : ℕ → List TaskMessage → List MessageRow → Bool
none_stored run [] rows = true
none_stored run (x ∷ xs) rows = not (some_of (clashes run x.seq) rows) && none_stored run xs rows

-- No two messages have one number.
unfoldable pub distinct_seqs : List TaskMessage → Bool
distinct_seqs [] = true
distinct_seqs (x ∷ xs) = not (some_of (λ y. seq_eq x.seq y.seq) xs) && distinct_seqs xs

uncounted :
    (n : ℕ) (z : ℤ) (ys : List TaskMessage)
    → (if is_pos n z then suc (count_seq n ys) else count_seq n ys) ≡ 0
    → (seq_eq (pos n) z ≡ false) × (count_seq n ys ≡ 0)
uncounted n (pos a) ys h = ground (arith, h, ==_iff n a, ==_iff a n)
uncounted n (negsuc a) ys h = (refl, h)

uncounted_none :
    (n : ℕ) (ys : List TaskMessage)
    → count_seq n ys ≡ 0
    → some_of (λ y. seq_eq (pos n) y.seq) ys ≡ false
unfolding count_seq
uncounted_none n [] h = refl
uncounted_none n (y ∷ ys) h =
    let (a, b) = uncounted n y.seq ys h in ground (arith, a, uncounted_none n ys b)

head_new :
    (z : ℤ) (m : TaskMessage) (ms : List TaskMessage)
    → m.seq ≡ z
    → ((k : ℕ) → count_seq k (m ∷ ms) ≤ 1)
    → in_range m.seq ≡ true
    → some_of (λ y. seq_eq m.seq y.seq) ms ≡ false
unfolding count_seq
head_new (pos n) m ms e c v =
    subst (λ x. some_of (λ y. seq_eq x y.seq) ms ≡ false) (sym e)
      (uncounted_none n ms (
        ground (
          arith,
          subst (λ x. (if is_pos n x then suc (count_seq n ms) else count_seq n ms) ≤ 1) e (c n),
          ==_iff n n,
        )))
head_new (negsuc n) m ms e c v = absurd (cc (v, ap in_range e))

valid_range : (m : TaskMessage) → validate_task_message m ≡ true → in_range m.seq ≡ true
unfolding validate_task_message
valid_range m v = ground (arith, v)

pub counted_distinct :
    (ms : List TaskMessage)
    → ((k : ℕ) → count_seq k ms ≤ 1)
    → any_invalid ms ≡ false
    → distinct_seqs ms ≡ true
unfolding count_seq distinct_seqs
counted_distinct [] c v = refl
counted_distinct (m ∷ ms) c v = ground (
  arith,
  head_new m.seq m ms refl c (valid_range m (ground (arith, v))),
  counted_distinct ms (λ k. ground (arith, c k)) (ground (arith, v)),
)

-- A run that has no row has no row of any number.
no_row :
    (run : ℕ) (z : ℤ) (rows : List MessageRow)
    → some_of (λ m. m.run_id == run) rows ≡ false
    → some_of (clashes run z) rows ≡ false
no_row run z [] f = refl
no_row run z (m ∷ rows) f = ground (arith, no_row run z rows)

pub none_before :
    (run : ℕ) (xs : List TaskMessage) (rows : List MessageRow)
    → some_of (λ m. m.run_id == run) rows ≡ false
    → none_stored run xs rows ≡ true
unfolding none_stored
none_before run [] rows f = refl
none_before run (x ∷ xs) rows f = ground (arith, no_row run x.seq rows f, none_before run xs rows f)

module _ (redact_text : Text → Text) (redact_input : Text → Text) where
  -- The rows of messages.
  unfoldable pub rows_of : ℕ → ℕ → List TaskMessage → List MessageRow
  rows_of task run [] = []
  rows_of task run (m ∷ ms) = row_of redact_text redact_input task run m ∷ rows_of task run ms

  none_stored-append :
      (task run : ℕ) (m : TaskMessage) (xs : List TaskMessage) (rows : List MessageRow)
      → none_stored run xs rows ≡ true
      → some_of (λ y. seq_eq m.seq y.seq) xs ≡ false
      → none_stored run xs (rows ++ row_of redact_text redact_input task run m ∷ []) ≡ true
  unfolding none_stored
  none_stored-append task run m [] rows h d = refl
  none_stored-append task run m (x ∷ xs) rows h d = ground (
    arith,
    h,
    d,
    some_of-append (clashes run x.seq) rows (row_of redact_text redact_input task run m),
    none_stored-append task run m xs rows,
  )

  -- New messages are stored and published, each once and in their order.
  pub persist_all_new :
      (task run user workspace : ℕ) (xs : List TaskMessage) (l : Ledger)
      → Ready task run user workspace l
      → none_stored run xs l.messages ≡ true
      → distinct_seqs xs ≡ true
      → persist_all redact_text redact_input task run xs l ≡ (
        done,
        with_rows l (l.messages ++ rows_of task run xs) (l.published ++ rows_of task run xs),
      )
  unfolding persist_all none_stored distinct_seqs rows_of
  persist_all_new task run user workspace [] l r n d =
      ap (λ e. (done, with_rows l e l.published)) (sym (append-nil l.messages))
      ∙ ap (λ e. (done, with_rows l (l.messages ++ []) e)) (sym (append-nil l.published))
  persist_all_new task run user workspace (m ∷ ms) l r n d =
      let x = row_of redact_text redact_input task run m in
      let step =
        persist_new task run user workspace l r redact_text redact_input m (ground arith) in
      rw (persist_all, step)
        (persist_all_new task run user workspace ms (added redact_text redact_input task run m l)
            (same_Ready task run user workspace l r (l.messages ++ x ∷ []) (l.published ++ x ∷ []))
            (none_stored-append task run m ms l.messages (ground arith) (ground arith))
            (ground arith)
          ∙ ap (λ e. (done, with_rows l e ((l.published ++ x ∷ []) ++ rows_of task run ms)))
              (append_assoc l.messages (x ∷ []) (rows_of task run ms))
          ∙ ap (λ e. (done, with_rows l (l.messages ++ x ∷ rows_of task run ms) e))
              (append_assoc l.published (x ∷ []) (rows_of task run ms)))
