-- ===== src/Runtime/Updates.antt =====
-- UpdateStore (server/internal/handler/runtime_update.go). The map is a list with one entry to an
-- identifier; the time, in milliseconds, and the random identifier of a new request are arguments.
use agentra.Base.{
  ℕ, ◌+◌, Bool, true, false, not, ◌&&◌, List, [], ◌∷◌, Option, none, some, Text, bytes,
  if◌then◌else◌, ◌==◌, ltb, keep, some_of,
}

pub data RequestStatus : Type 0 where
  pending running completed failed timeout : RequestStatus

pub record UpdateRequest : Type 0 where
  pub id : ℕ
  pub runtime_id : ℕ
  pub status : RequestStatus
  pub target_version : Text
  pub output : Text
  pub error : Text
  pub created_at : ℕ
  pub updated_at : ℕ

abbrev pub is_pending : RequestStatus → Bool
is_pending RequestStatus.pending = true
is_pending _ = false

abbrev pub in_progress : RequestStatus → Bool
in_progress RequestStatus.pending = true
in_progress RequestStatus.running = true
in_progress _ = false

-- time.Since(at) > age.
abbrev pub older_than : ℕ → ℕ → ℕ → Bool
older_than age at now = ltb (at + age) now

-- A pending or running update of a runtime.
abbrev pub open_for : ℕ → UpdateRequest → Bool
open_for runtime r = (r.runtime_id == runtime) && in_progress r.status

abbrev pub recent : ℕ → UpdateRequest → Bool
recent now r = not (older_than 300000 r.created_at now)

abbrev pub named : ℕ → UpdateRequest → Bool
named id r = r.id == id

abbrev pub new_request : ℕ → ℕ → ℕ → Text → UpdateRequest
new_request now id runtime version = record {
  id = id;
  runtime_id = runtime;
  status = RequestStatus.pending;
  target_version = version;
  output = [];
  error = [];
  created_at = now;
  updated_at = now;
}

abbrev pub insert : UpdateRequest → List UpdateRequest → List UpdateRequest
insert r rs = r ∷ keep (λ q. not (named r.id q)) rs

abbrev create_in : UpdateRequest → List UpdateRequest → Option UpdateRequest × List UpdateRequest
create_in r rs = if some_of (open_for r.runtime_id) rs then (none, rs) else (some r, insert r rs)

-- `none` for errUpdateInProgress; old requests are removed either way.
unfoldable pub create :
    ℕ → ℕ → ℕ → Text → List UpdateRequest → Option UpdateRequest × List UpdateRequest
create now id runtime version rs =
    create_in (new_request now id runtime version) (keep (recent now) rs)

-- The request with an identifier is changed, and returned.
unfoldable pub change_named :
    ℕ
    → (UpdateRequest → UpdateRequest)
    → List UpdateRequest
    → Option UpdateRequest × List UpdateRequest
change_named id change [] = (none, [])
change_named id change (r ∷ rs) =
    let rest = change_named id change rs in
    if named id r then (some (change r), change r ∷ rs) else (rest.0, r ∷ rest.1)

abbrev pub timed_out : ℕ → UpdateRequest → UpdateRequest
timed_out now r =
    if in_progress r.status && older_than 120000 r.created_at now
    then record r {
      status = RequestStatus.timeout;
      error = bytes "update did not complete within 120 seconds";
      updated_at = now;
    }
    else r

unfoldable pub get : ℕ → ℕ → List UpdateRequest → Option UpdateRequest × List UpdateRequest
unfolding change_named
get now id rs = change_named id (timed_out now) rs

abbrev pub popped : ℕ → UpdateRequest → UpdateRequest
popped now r = record r { status = RequestStatus.running; updated_at = now }

-- The first pending request of the runtime; the order of a map's entries does not matter, since
-- there is one at most.
unfoldable pub pop_pending : ℕ → ℕ → List UpdateRequest → Option UpdateRequest × List UpdateRequest
pop_pending now runtime [] = (none, [])
pop_pending now runtime (r ∷ rs) =
    let rest = pop_pending now runtime rs in
    if (r.runtime_id == runtime) && is_pending r.status
    then (some (popped now r), popped now r ∷ rs)
    else (rest.0, r ∷ rest.1)

abbrev pub completed_with : ℕ → Text → UpdateRequest → UpdateRequest
completed_with now output r = record r {
  status = RequestStatus.completed;
  output = output;
  updated_at = now;
}

unfoldable pub complete : ℕ → ℕ → Text → List UpdateRequest → List UpdateRequest
unfolding change_named
complete now id output rs = (change_named id (completed_with now output) rs).1

abbrev pub failed_with : ℕ → Text → UpdateRequest → UpdateRequest
failed_with now error r = record r {
  status = RequestStatus.failed;
  error = error;
  updated_at = now;
}

unfoldable pub fail : ℕ → ℕ → Text → List UpdateRequest → List UpdateRequest
unfolding change_named
fail now id error rs = (change_named id (failed_with now error) rs).1
