-- ===== src/Access/OneTime.antt =====
-- The store of one-time codes (server/internal/onetimecode/onetimecode.go).
-- The mutex makes each operation one step. Codes and tokens are opaque, so they are numbers; the
-- clock and the random code of an operation are arguments.
use agentra.Base.{
  ℕ, ◌+◌, ◌-◌, Bool, not, List, [], ◌∷◌, Option, none, some, if◌then◌else◌, ◌==◌, ltb, keep, length,
}

pub record Entry : Type 0 where
  pub code : ℕ
  pub token : ℕ
  pub expires_at : ℕ

-- The map data, as the list of its entries.
pub record Store : Type 0 where
  pub entries : List Entry
  pub ttl : ℕ

abbrev pub new : ℕ → Store
new ttl = record { entries = []; ttl = ttl }

-- delete(s.data, code).
abbrev pub without : ℕ → List Entry → List Entry
without code es = keep (λ e. not (e.code == code)) es

abbrev pub find : ℕ → List Entry → Option Entry
find code [] = none
find code (e ∷ es) = if e.code == code then some e else find code es

unfoldable pub put : ℕ → ℕ → ℕ → Store → ℕ × Store
put fresh now token s = (
  fresh,
  record s {
    entries =
        record { code = fresh; token = token; expires_at = now + s.ttl } ∷ without fresh s.entries;
  },
)

abbrev pub expired : ℕ → Entry → Bool
expired now e = ltb e.expires_at now

abbrev pub redeem : ℕ → Option Entry → Option ℕ
redeem now none = none
redeem now (some e) = if expired now e then none else some e.token

-- The token, if the code is known and has not expired; the code is removed in both cases.
unfoldable pub take : ℕ → ℕ → Store → Option ℕ × Store
take now code s = (redeem now (find code s.entries), record s { entries = without code s.entries })

-- Removes the expired entries, and counts them.
unfoldable pub sweep_expired : ℕ → Store → ℕ × Store
sweep_expired now s =
    let live = keep (λ e. not (expired now e)) s.entries in
    (length s.entries - length live, record s { entries = live })
