-- ===== src/Access/Bus.antt =====
-- The event bus (server/internal/events/bus.go).
use agentra.Base.{ℕ, Bool, List, [], ◌∷◌, ◌++◌, if◌then◌else◌, ◌==◌}

-- The texts of an event are opaque, so they are numbers; the payload is of any type.
pub record Event {ℓ} (P : Type ℓ) : Type ℓ where
  pub id : ℕ
  pub event_type : ℕ
  pub workspace_id : ℕ
  pub actor_type : ℕ
  pub actor_id : ℕ
  pub payload : P

-- A handler changes a state; it ends by itself (`false`) or in a panic (`true`).
abbrev pub Handler {ℓ} : Type ℓ → Type ℓ → Type ℓ
Handler P S = Event P → S → Bool × S

pub record Bus {ℓ} (P S : Type ℓ) : Type ℓ where
  pub listeners : ℕ → List (Handler P S)
  pub global_handlers : List (Handler P S)

module _ {ℓ} {P S : Type ℓ} where
  abbrev pub new : Bus P S
  new = record { listeners = λ t. []; global_handlers = [] }

  unfoldable pub subscribe : ℕ → Handler P S → Bus P S → Bus P S
  subscribe event_type h b = record b {
    listeners = λ t. if t == event_type then b.listeners t ++ h ∷ [] else b.listeners t;
  }

  unfoldable pub subscribe_all : Handler P S → Bus P S → Bus P S
  subscribe_all h b = record b { global_handlers = b.global_handlers ++ h ∷ [] }

  -- A panic is recovered: the state stays as the handler left it.
  abbrev pub call : Handler P S → Event P → S → S
  call h e s = (h e s).1

  abbrev pub call_all : List (Handler P S) → Event P → S → S
  call_all [] e s = s
  call_all (h ∷ hs) e s = call_all hs e (call h e s)

  -- The handlers are read before the first is called.
  unfoldable pub publish : Bus P S → Event P → S → S
  publish b e s = call_all b.global_handlers e (call_all (b.listeners e.event_type) e s)
