-- ===== src/Realtime/Hub.antt =====
-- The hub of server/internal/realtime/hub.go. The clients that are registered, each in the room of its
-- workspace, are a list; the channel of a client is the queue of what was sent and not yet written, of
-- bounded length. The removal of slow clients, which the code does in the background, comes at once.
use agentra.Base.{
  ℕ, Bool, true, not, ◌&&◌, List, [], ◌∷◌, ◌++◌, Option, none, some, Text, if◌then◌else◌, ◌==◌, ltb,
  opt_eq, length, keep, some_of, text_eq, bytes, drop, has_prefix, trim_space, is_empty,
}

pub record Client : Type 0 where
  pub id : ℕ
  pub user_id : Text
  pub workspace_id : ℕ
  pub rooms : List ℕ
  pub send : List Text

-- make(chan []byte, 256).
abbrev pub buffer : ℕ
buffer = 256

abbrev pub is_in_room : Client → ℕ → Bool
is_in_room c workspace = some_of (λ r. r == workspace) c.rooms

unfoldable pub join_room : Client → ℕ → Client
join_room c workspace =
    if is_in_room c workspace then c else record c { rooms = workspace ∷ c.rooms }

unfoldable pub leave_room : Client → ℕ → Client
leave_room c workspace = record c { rooms = keep (λ r. not (r == workspace)) c.rooms }

unfoldable pub register : Client → List Client → List Client
register c cs = c ∷ keep (λ d. not (d.id == c.id)) cs

unfoldable pub unregister : Client → List Client → List Client
unregister c cs = keep (λ d. not (d.id == c.id)) cs

-- What a client sends, when it is understood; `none` for a missing workspace.
pub data InboundEvent : Type 0 where
  ping : InboundEvent
  subscribe unsubscribe : Option ℕ → InboundEvent
  unknown : InboundEvent

-- A pong waits while the queue is full, which is left out.
unfoldable pub handle_inbound_event : Text → InboundEvent → Client → Client
unfolding join_room leave_room
handle_inbound_event pong ping c = record c { send = c.send ++ pong ∷ [] }
handle_inbound_event pong (subscribe none) c = c
handle_inbound_event pong (subscribe (some workspace)) c = join_room c workspace
handle_inbound_event pong (unsubscribe none) c = c
handle_inbound_event pong (unsubscribe (some workspace)) c = leave_room c workspace
handle_inbound_event pong unknown c = c

abbrev pub has_room : Client → Bool
has_room c = ltb (length c.send) buffer

abbrev pub pushed : Text → Client → Client
pushed message c = record c { send = c.send ++ message ∷ [] }

-- The chosen clients get the message, or are removed when their queue is full.
unfoldable pub send_to : (Client → Bool) → Text → List Client → List Client
send_to chosen message [] = []
send_to chosen message (c ∷ cs) =
    let rest = send_to chosen message cs in
    if chosen c then (if has_room c then pushed message c ∷ rest else rest) else c ∷ rest

abbrev pub listens : ℕ → Client → Bool
listens workspace c = (c.workspace_id == workspace) && is_in_room c workspace

unfoldable pub broadcast_to_workspace : ℕ → Text → List Client → List Client
unfolding send_to
broadcast_to_workspace workspace message cs = send_to (listens workspace) message cs

abbrev pub is_of_user : Text → Option ℕ → Client → Bool
is_of_user user exclude c = text_eq c.user_id user && not (opt_eq (some c.workspace_id) exclude)

unfoldable pub send_to_user : Text → Text → Option ℕ → List Client → List Client
unfolding send_to
send_to_user user message exclude cs = send_to (is_of_user user exclude) message cs

unfoldable pub broadcast : Text → List Client → List Client
unfolding send_to
broadcast message cs = send_to (λ c. true) message cs

-- What is read of the request of a connection, with the Authorization header and an absent workspace
-- as the code has them.
pub record Upgrade : Type 0 where
  pub token : Text
  pub authorization : Text
  pub workspace_id : Option ℕ

pub data Refusal : Type 0 where
  token_in_query token_required invalid_token not_member upgrade_failed : Refusal

pub data Connection : Type 0 where
  refused : Refusal → Connection
  connected : Client → Connection

abbrev bearer : Text
bearer = bytes "Bearer "

abbrev pub token_of : Upgrade → Text
token_of r =
    if is_empty r.token && has_prefix r.authorization bearer
    then drop 7 r.authorization
    else r.token

-- The user of a token, if it is valid and not blank.
abbrev pub user_of : Option (Text → Option Text) → Text → Option Text
user_of none token = none
user_of (some authenticate) token = elim (authenticate token) [
  | none ↦ none
  | some user ↦ if is_empty (trim_space user) then none else some user
]

abbrev pub new_client : ℕ → Text → ℕ → Client
new_client id user workspace = record {
  id = id;
  user_id = user;
  workspace_id = workspace;
  rooms = workspace ∷ [];
  send = [];
}

abbrev pub admit : (Text → ℕ → Bool) → Bool → ℕ → ℕ → Option Text → Connection
admit is_member upgraded id workspace none = refused Refusal.invalid_token
admit is_member upgraded id workspace (some user) =
    if is_member user workspace
    then (if upgraded
        then connected (new_client id user workspace)
        else refused Refusal.upgrade_failed)
    else refused Refusal.not_member

abbrev pub with_workspace :
    Option (Text → Option Text) → (Text → ℕ → Bool) → Bool → ℕ → Text → Option ℕ → Connection
with_workspace authenticator is_member upgraded id token none = refused Refusal.token_required
with_workspace authenticator is_member upgraded id token (some workspace) =
    if is_empty token
    then refused Refusal.token_required
    else admit is_member upgraded id workspace (user_of authenticator token)

-- The authenticator, the membership, and whether the upgrade of the connection succeeds are given.
unfoldable pub handle_web_socket :
    Option (Text → Option Text) → (Text → ℕ → Bool) → Bool → ℕ → Upgrade → Connection
handle_web_socket authenticator is_member upgraded id r =
    if has_prefix r.token (bytes "mul_")
    then refused Refusal.token_in_query
    else with_workspace authenticator is_member upgraded id (token_of r) r.workspace_id
