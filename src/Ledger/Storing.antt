-- ===== src/Ledger/Storing.antt =====
-- What persistTaskMessage (server/internal/handler/daemon.go) does with one message.
use agentra.Base.{
  ℕ, ◌≡◌, refl, Bool, true, false, not, ◌&&◌, ◌||◌, List, [], ◌∷◌, ◌++◌, Text, arith, if◌then◌else◌,
  ==_iff, some_of,
}
use agentra.Store.Tx.{Query}
use agentra.Lifecycle.Transitions.{ℤ, pos, negsuc}
use agentra.Daemon.Output.{TaskMessage}
use agentra.Ledger.Reports.{
  MessageRow, Ledger, seq_eq, clashes, is_active_run, Outcome, kept, stale, refused, Reply,
  conflict, server_error, row_of, persist_task_message, persist_all,
}

pub seq_eq_refl : (a : ℤ) → seq_eq a a ≡ true
seq_eq_refl (pos a) = (==_iff a a).1 refl
seq_eq_refl (negsuc a) = (==_iff a a).1 refl

seq_eq_sym : (a b : ℤ) → seq_eq a b ≡ seq_eq b a
seq_eq_sym (pos a) (pos b) = ground (arith, ==_iff a b, ==_iff b a)
seq_eq_sym (pos a) (negsuc b) = refl
seq_eq_sym (negsuc a) (pos b) = refl
seq_eq_sym (negsuc a) (negsuc b) = ground (arith, ==_iff a b, ==_iff b a)

-- Whether no two rows have one run and one number.
unfoldable pub unique : List MessageRow → Bool
unique [] = true
unique (m ∷ ms) = not (some_of (clashes m.run_id m.seq) ms) && unique ms

pub some_of-append :
    (p : MessageRow → Bool) (ms : List MessageRow) (m : MessageRow)
    → some_of p (ms ++ m ∷ []) ≡ (some_of p ms || p m)
some_of-append p [] m = ground arith
some_of-append p (x ∷ xs) m = ground (arith, some_of-append p xs m)

pub unique-append :
    (m : MessageRow) (ms : List MessageRow)
    → unique ms ≡ true
    → some_of (clashes m.run_id m.seq) ms ≡ false
    → unique (ms ++ m ∷ []) ≡ true
unfolding unique
unique-append m [] u h = refl
unique-append m (x ∷ xs) u h = ground (
  arith,
  some_of-append (clashes x.run_id x.seq) xs m,
  seq_eq_sym x.seq m.seq,
  ==_iff x.run_id m.run_id,
  ==_iff m.run_id x.run_id,
  unique-append m xs,
)

module _ (redact_text : Text → Text) (redact_input : Text → Text) where
  abbrev pub added : ℕ → ℕ → TaskMessage → Ledger → Ledger
  added task run m l = record l {
    messages = l.messages ++ row_of redact_text redact_input task run m ∷ [];
    published = l.published ++ row_of redact_text redact_input task run m ∷ [];
  }

  abbrev pub then_all : ℕ → ℕ → List TaskMessage → Ledger → Outcome → Reply × Ledger
  then_all task run xs l o = elim o [
    | kept l' ↦ persist_all redact_text redact_input task run xs l'
    | stale ↦ (conflict, l)
    | refused ↦ (server_error, l)
  ]

  -- What happens to one message.
  pub data Persisted (task run : ℕ) (m : TaskMessage) (l : Ledger) : Outcome → Type 0 where
    fails : l.db.fails Query.create_task_message ≡ true → Persisted task run m l refused
    rests : is_active_run l.db task run ≡ false → Persisted task run m l stale
    again :
        l.db.fails Query.create_task_message ≡ false
        → is_active_run l.db task run ≡ true
        → some_of (clashes run m.seq) l.messages ≡ true
        → Persisted task run m l (kept l)
    adds :
        l.db.fails Query.create_task_message ≡ false
        → is_active_run l.db task run ≡ true
        → some_of (clashes run m.seq) l.messages ≡ false
        → Persisted task run m l (kept (added task run m l))

  branch-Persisted :
      (task run : ℕ) (m : TaskMessage) (l : Ledger) (a b c : Bool)
      → l.db.fails Query.create_task_message ≡ a
      → is_active_run l.db task run ≡ b
      → some_of (clashes run m.seq) l.messages ≡ c
      → Persisted task run m l (
          if a
          then refused
          else if not b
          then stale
          else if c
          then kept l
          else kept (added task run m l))
  branch-Persisted task run m l true b c e f g = fails e
  branch-Persisted task run m l false false c e f g = rests f
  branch-Persisted task run m l false true true e f g = again e f g
  branch-Persisted task run m l false true false e f g = adds e f g

  pub persist-Persisted :
      (task run : ℕ) (m : TaskMessage) (l : Ledger)
      → Persisted task run m l (persist_task_message redact_text redact_input task run m l)
  unfolding persist_task_message
  persist-Persisted task run m l = branch-Persisted task run m l _ _ _ refl refl refl
