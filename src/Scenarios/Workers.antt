-- ===== src/Scenarios/Workers.antt =====
-- The outbox worker, the messages of the daemon, the requests kept for a runtime, and the web-socket
-- clients.
use agentra.Base.{
  keep, length, ℕ, ◌≤◌, ◌≡◌, ◌⊎◌, refl, Bool, true, false, List, [], ◌∷◌, Option, none, some, Text,
  bytes, arith, take, drop, some_of, has_prefix, text_eq,
}
use agentra.Store.Rows.{EventRow}
use agentra.Store.Tx.{Db, ok}
use agentra.Store.Io.{Io, return}
use agentra.Store.Leases.{
  leased, processed, claim_lifecycle_outbox_event, mark_lifecycle_outbox_event_processed,
  release_lifecycle_outbox_event,
}
use agentra.Outbox.Worker.{process_next}
use agentra.Outbox.Orderly.{orderly}
use agentra.Outbox.Steps.{Reach, here, then, claims}
use agentra.Outbox.Order.{Reach-orderly}
use agentra.Outbox.Fencing.{fenced, unique_ids}
use agentra.Outbox.Rounds.{is_leased, acknowledged, process_next-acknowledged}
use agentra.Daemon.Messages.{split_task_message_content, task_message_field_bytes}
use agentra.Daemon.Splitting.{split_task_message_content-Split, joined, all_fit}
use agentra.Runtime.Exclusive.{
  Request, creates, pops, fails_with, count_open, after_all, after_all-exclusive,
}
use agentra.Runtime.Pings.{PingRequest, new_ping, waits_for, started, pop_pending}
use agentra.Runtime.Oldest.{pop_pending_oldest, none_older}
use agentra.Realtime.Hub.{Client, Upgrade, connected, new_client, handle_web_socket}
use agentra.Realtime.Isolation.{handle_web_socket-Admitted, Admitted}
use agentra.Realtime.Origin.{Url, allowed_origins, new_ws_upgrader}
use agentra.Realtime.Allowing.{Listed, Allows, new_ws_upgrader-Allows}
use agentra.Scenarios.Data.{db_event, failed_event}

-- The event is leased under the token 45, by a worker that stopped long ago.
abbrev late : Db
late = record db_event {
  outbox =
      record failed_event { locked_at = some 10; lock_token = some 45; attempts = 1 }
      ∷ record failed_event { id = 41; processed_at = some 90 }
      ∷ [];
  now = 100000;
}

abbrev retaken : EventRow
retaken =
    leased 100000 50
      (record failed_event { locked_at = some 10; lock_token = some 45; attempts = 1 })

abbrev taken : Db
taken = record late {
  outbox = retaken ∷ record failed_event { id = 41; processed_at = some 90 } ∷ [];
  next_id = 51;
}

takes : claim_lifecycle_outbox_event late ≡ ok (retaken, taken)
unfolding claim_lifecycle_outbox_event
takes = refl

one_step : Reach late taken
one_step = then late taken here (claims retaken late taken takes)

late_orderly : orderly late.next_id late.outbox ≡ true
unfolding orderly
late_orderly = refl

Reach-orderly_example : orderly taken.next_id taken.outbox ≡ true
Reach-orderly_example = Reach-orderly late taken one_step late_orderly

late_unique : unique_ids late.outbox ≡ true
unfolding unique_ids
late_unique = refl

fenced_example :
    (mark_lifecycle_outbox_event_processed 40 (some 45) taken ≡ ok (0, taken))
    × (release_lifecycle_outbox_event 40 (some 45) taken ≡ ok (0, taken))
fenced_example = fenced 45 retaken late taken taken takes late_unique (omega arith) here (λ q. refl)

abbrev projects : EventRow → Io (Unit {0})
projects e = return tt

abbrev finished : Db
finished = record taken {
  outbox = processed 100000 retaken ∷ record failed_event { id = 41; processed_at = some 90 } ∷ [];
}

works : process_next true projects late ≡ (ok true, finished)
unfolding process_next
works = refl

process_next-acknowledged_example :
    (x : EventRow) × (mid : Db) × (claim_lifecycle_outbox_event late ≡ ok (x, mid))
    × (x.lock_token ≡ some late.next_id)
    × ((projects x mid).0 ≡ ok tt)
    × (length (keep (is_leased x.id late.next_id) (projects x mid).1.outbox) ≡ 1)
    × (finished ≡ record (projects x mid).1 {
      outbox = acknowledged x.id late.next_id (projects x mid).1.now (projects x mid).1.outbox;
    })
process_next-acknowledged_example = process_next-acknowledged projects late finished works

split_task_message_content-Split_example :
    (parts : List Text) × (split_task_message_content (λ t. t) (bytes "hello") ≡ some parts)
    × (joined parts ≡ bytes "hello")
    × (all_fit task_message_field_bytes parts ≡ true)
split_task_message_content-Split_example = split_task_message_content-Split (λ t. t) (bytes "hello")

abbrev asked : List Request
asked =
    creates 0 1 7 (bytes "v2")
    ∷ pops 5 7
    ∷ creates 10 2 7 (bytes "v3")
    ∷ fails_with 20 1 []
    ∷ creates 30 3 7 (bytes "v3")
    ∷ []

none_open : count_open 7 [] ≤ 1
unfolding count_open
none_open = omega arith

after_all-exclusive_example : count_open 7 (after_all asked []) ≤ 1
after_all-exclusive_example = after_all-exclusive 7 asked [] none_open

abbrev pings : List PingRequest
pings = new_ping 20 2 7 ∷ new_ping 10 1 7 ∷ new_ping 5 3 8 ∷ []

pop_pending_oldest_example :
    (((pop_pending 30 7 pings).0 ≡ none) × (some_of (waits_for 7) pings ≡ false))
    ⊎ ((p : PingRequest) × ((pop_pending 30 7 pings).0 ≡ some (started 30 p))
        × (waits_for 7 p ≡ true)
        × (none_older 7 p.created_at pings ≡ true))
pop_pending_oldest_example = pop_pending_oldest 30 7 pings

abbrev ann : Client
ann = new_client 1 (bytes "ann") 6

abbrev knows : Option (Text → Option Text)
knows = some (λ t. elim (text_eq t (bytes "secret")) [ true ↦ some (bytes "ann") | false ↦ none ])

abbrev belongs : Text → ℕ → Bool
belongs user workspace = text_eq user (bytes "ann")

abbrev request : Upgrade
request = record { token = []; authorization = bytes "Bearer secret"; workspace_id = some 6 }

admits : handle_web_socket knows belongs true 1 request ≡ connected ann
unfolding handle_web_socket
admits = refl

handle_web_socket-Admitted_example :
    (workspace : ℕ) × (some 6 ≡ some workspace)
    × (has_prefix request.token (bytes "mul_") ≡ false)
    × Admitted knows belongs request workspace ann
handle_web_socket-Admitted_example =
    handle_web_socket-Admitted knows belongs true 1 request ann admits

-- A reader of addresses that start with "https://".
abbrev read_https : Text → Option Url
read_https s = some (record { scheme = take 5 s; host = drop 8 s })

abbrev configured : Text
configured = bytes " https://a.example , ,HTTPS://B.example"

let_in :
    new_ws_upgrader read_https
      (allowed_origins [] configured [] [])
      (bytes " https://b.EXAMPLE")
      []
      []
    ≡ true
unfolding new_ws_upgrader allowed_origins
let_in = refl

new_ws_upgrader-Allows_example :
    (os : List Text) × (allowed_origins [] configured [] [] ≡ some os)
    × Listed os
    × Allows os (read_https (bytes "https://b.EXAMPLE"))
new_ws_upgrader-Allows_example =
    new_ws_upgrader-Allows read_https [] configured [] [] (bytes " https://b.EXAMPLE") [] [] refl
      let_in
