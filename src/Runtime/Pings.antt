-- ===== src/Runtime/Pings.antt =====
-- PingStore (server/internal/handler/runtime_ping.go), as a list with one entry to an identifier.
use agentra.Base.{
  ℕ, Bool, not, ◌&&◌, List, [], ◌∷◌, Option, none, some, Text, bytes, if◌then◌else◌, ◌==◌, ltb,
  keep,
}
use agentra.Lifecycle.Transitions.{ℤ}
use agentra.Runtime.Updates.{RequestStatus, is_pending, older_than}

pub record PingRequest : Type 0 where
  pub id : ℕ
  pub runtime_id : ℕ
  pub status : RequestStatus
  pub output : Text
  pub error : Text
  pub duration_ms : ℤ
  pub created_at : ℕ
  pub updated_at : ℕ

abbrev pub new_ping : ℕ → ℕ → ℕ → PingRequest
new_ping now id runtime = record {
  id = id;
  runtime_id = runtime;
  status = RequestStatus.pending;
  output = [];
  error = [];
  duration_ms = ℤ.pos 0;
  created_at = now;
  updated_at = now;
}

abbrev pub fresh_ping : ℕ → PingRequest → Bool
fresh_ping now p = not (older_than 120000 p.created_at now)

-- Every ping older than two minutes is removed, whatever its runtime.
unfoldable pub create : ℕ → ℕ → ℕ → List PingRequest → PingRequest × List PingRequest
create now id runtime ps = (
  new_ping now id runtime,
  new_ping now id runtime ∷ keep (λ p. not (p.id == id)) (keep (fresh_ping now) ps),
)

-- The ping with an identifier is changed, and returned.
unfoldable pub change_ping :
    ℕ → (PingRequest → PingRequest) → List PingRequest → Option PingRequest × List PingRequest
change_ping id change [] = (none, [])
change_ping id change (p ∷ ps) =
    let rest = change_ping id change ps in
    if p.id == id then (some (change p), change p ∷ ps) else (rest.0, p ∷ rest.1)

abbrev pub timed_out : ℕ → PingRequest → PingRequest
timed_out now p =
    if is_pending p.status && older_than 60000 p.created_at now
    then record p {
      status = RequestStatus.timeout;
      error = bytes "daemon did not respond within 60 seconds";
      updated_at = now;
    }
    else p

unfoldable pub get : ℕ → ℕ → List PingRequest → Option PingRequest × List PingRequest
unfolding change_ping
get now id ps = change_ping id (timed_out now) ps

abbrev pub waits_for : ℕ → PingRequest → Bool
waits_for runtime p = (p.runtime_id == runtime) && is_pending p.status

abbrev pub older : PingRequest → Option PingRequest → PingRequest
older p none = p
older p (some q) = if ltb p.created_at q.created_at then p else q

-- The oldest pending ping of a runtime; `oldest` is the one of those before.
unfoldable pub find_oldest : ℕ → Option PingRequest → List PingRequest → Option PingRequest
find_oldest runtime oldest [] = oldest
find_oldest runtime oldest (p ∷ ps) =
    find_oldest runtime (if waits_for runtime p then some (older p oldest) else oldest) ps

abbrev pub started : ℕ → PingRequest → PingRequest
started now p = record p { status = RequestStatus.running; updated_at = now }

unfoldable pub pop_pending : ℕ → ℕ → List PingRequest → Option PingRequest × List PingRequest
unfolding find_oldest change_ping
pop_pending now runtime ps = elim (find_oldest runtime none ps) [
  | none ↦ (none, ps)
  | some p ↦ (some (started now p), (change_ping p.id (started now) ps).1)
]

unfoldable pub complete : ℕ → ℕ → Text → ℤ → List PingRequest → List PingRequest
unfolding change_ping
complete now id output duration ps =
    (change_ping id
      (λ p. record p {
        status = RequestStatus.completed;
        output = output;
        duration_ms = duration;
        updated_at = now;
      })
      ps).1

unfoldable pub fail : ℕ → ℕ → Text → ℤ → List PingRequest → List PingRequest
unfolding change_ping
fail now id error duration ps =
    (change_ping id
      (λ p. record p {
        status = RequestStatus.failed;
        error = error;
        duration_ms = duration;
        updated_at = now;
      })
      ps).1
