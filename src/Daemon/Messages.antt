-- ===== src/Daemon/Messages.antt =====
-- splitTaskMessageContent (server/internal/daemon/task_messages.go). strings.ToValidUTF8 is the
-- parameter `to_valid`.
use agentra.Base.{
  ℕ, zero, suc, Bool, true, false, not, ◌&&◌, List, [], ◌∷◌, Option, none, some, Text,
  if◌then◌else◌, ◌==◌, leb, ltb, length, get_elem?, take, drop, is_empty,
}

-- utf8.RuneStart: not a continuation byte 10xxxxxx.
abbrev pub rune_start : Option ℕ → Bool
rune_start none = false
rune_start (some c) = not (leb 128 c && ltb c 192)

-- The last place at or before `end` where a character starts, or 0.
unfoldable pub walk_back : Text → ℕ → ℕ
walk_back content zero = zero
walk_back content (suc e) =
    let before = walk_back content e in
    if rune_start (get_elem? content (suc e)) then suc e else before

-- Where the next chunk of a content that is longer than `limit` ends.
unfoldable pub chunk_end : ℕ → Text → ℕ
unfolding walk_back
chunk_end limit content = let e = walk_back content limit in if e == 0 then limit else e

-- The chunks, in as many rounds as are given.
unfoldable pub chunks : ℕ → ℕ → Text → Option (List Text)
unfolding chunk_end
chunks limit zero content = none
chunks limit (suc rounds) content = elim (ltb limit (length content)) [
  | true ↦ elim (chunks limit rounds (drop (chunk_end limit content) content)) [
    | none ↦ none
    | some rest ↦ some (take (chunk_end limit content) content ∷ rest)
  ]
  | false ↦ some (if is_empty content then [] else content ∷ [])
]

-- protocol.TaskMessageFieldBytes.
abbrev pub task_message_field_bytes : ℕ
task_message_field_bytes = 65536

-- As many rounds as there are bytes, and one.
unfoldable pub split_task_message_content : (Text → Text) → Text → Option (List Text)
unfolding chunks
split_task_message_content to_valid content =
    chunks task_message_field_bytes (suc (length (to_valid content))) (to_valid content)
