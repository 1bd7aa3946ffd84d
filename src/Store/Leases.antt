-- ===== src/Store/Leases.antt =====
-- Statements on the leases of outbox events (server/pkg/db/generated/lifecycle_outbox.sql.go).
use agentra.Base.{
  ℕ, ◌+◌, Bool, true, false, not, ◌&&◌, List, [], ◌∷◌, ◌++◌, Option, none, some, if◌then◌else◌,
  ◌==◌, opt_eq, some_of, leb, ltb, is_some,
}
use agentra.Store.Rows.{EventRow}
use agentra.Store.Tx.{Query, Tx, ok, err, no_rows, query}
use agentra.Store.Consumer.{backoff}

-- An event that is neither processed nor dead-lettered.
abbrev pub is_waiting : EventRow → Bool
is_waiting e = not (is_some e.processed_at) && not (is_some e.dead_lettered_at)

-- locked_at IS NULL OR locked_at < now() - interval '30 seconds'.
abbrev pub lease_over : Option ℕ → ℕ → Bool
lease_over none now = true
lease_over (some at) now = ltb (at + 30000) now

-- EXISTS an earlier waiting event of the same work item.
abbrev pub held_up : List EventRow → EventRow → Bool
held_up earlier e = some_of (λ f. (f.work_item_id == e.work_item_id) && is_waiting f) earlier

abbrev pub can_lease : ℕ → List EventRow → EventRow → Bool
can_lease now earlier e =
    is_waiting e
    && (leb e.available_at now && (lease_over e.locked_at now && not (held_up earlier e)))

abbrev pub leased : ℕ → ℕ → EventRow → EventRow
leased now token e = record e {
  locked_at = some now;
  lock_token = some token;
  attempts = e.attempts + 1;
}

abbrev pub with_first :
    EventRow → Option (EventRow × List EventRow) → Option (EventRow × List EventRow)
with_first e none = none
with_first e (some (f, rest)) = some (f, e ∷ rest)

-- The first event that can be leased, and the rows with its lease taken; `earlier` are the rows
-- before.
unfoldable pub lease_first :
    ℕ → ℕ → List EventRow → List EventRow → Option (EventRow × List EventRow)
lease_first now token earlier [] = none
lease_first now token earlier (e ∷ es) =
    let rest = with_first e (lease_first now token (earlier ++ e ∷ []) es) in
    if can_lease now earlier e then some (leased now token e, leased now token e ∷ es) else rest

abbrev pub take_lease : Option (EventRow × List EventRow) → Tx EventRow
take_lease none db = err no_rows
take_lease (some (e, rows)) db = ok (e, record db { outbox = rows; next_id = db.next_id + 1 })

-- The token is a new identifier. One worker claims at a time, so SKIP LOCKED is left out.
unfoldable pub claim_lifecycle_outbox_event : Tx EventRow
unfolding lease_first
claim_lifecycle_outbox_event db =
    query Query.claim_event (take_lease (lease_first db.now db.next_id [] db.outbox)) db

-- id = $1 AND lock_token = $2 AND processed_at IS NULL; NULL equals nothing.
abbrev pub holds : ℕ → Option ℕ → EventRow → Bool
holds id none e = false
holds id (some token) e =
    (e.id == id) && (opt_eq e.lock_token (some token) && not (is_some e.processed_at))

unfoldable pub change_held :
    (EventRow → Bool) → (EventRow → EventRow) → List EventRow → List EventRow
change_held held change [] = []
change_held held change (e ∷ es) =
    let rest = change_held held change es in if held e then change e ∷ rest else e ∷ rest

unfoldable pub count_held : (EventRow → Bool) → List EventRow → ℕ
count_held held [] = 0
count_held held (e ∷ es) = let rest = count_held held es in if held e then rest + 1 else rest

abbrev pub processed : ℕ → EventRow → EventRow
processed now e = record e { processed_at = some now; locked_at = none; lock_token = none }

-- The number of rows that the update changed.
unfoldable pub mark_lifecycle_outbox_event_processed : ℕ → Option ℕ → Tx ℕ
unfolding change_held count_held
mark_lifecycle_outbox_event_processed id token db =
    query Query.mark_processed
      (λ d. ok (
        count_held (holds id token) d.outbox,
        record d { outbox = change_held (holds id token) (processed d.now) d.outbox },
      ))
      db

abbrev pub released : ℕ → EventRow → EventRow
released now e = record e {
  locked_at = none;
  lock_token = none;
  available_at = now + backoff e.attempts;
  dead_lettered_at = if leb 20 e.attempts then some now else none;
}

unfoldable pub release_lifecycle_outbox_event : ℕ → Option ℕ → Tx ℕ
unfolding change_held count_held
release_lifecycle_outbox_event id token db =
    query Query.release_event
      (λ d. ok (
        count_held (holds id token) d.outbox,
        record d { outbox = change_held (holds id token) (released d.now) d.outbox },
      ))
      db
