-- ===== src/Loop/Verdict.antt =====
-- parseTaskResult (server/internal/loop/coordinator_helpers.go): the first balanced JSON object of a
-- model's answer. Decoding itself is encoding/json: the parameter `unmarshal`, which answers `none`
-- for an error.
use agentra.Base.{
  ℕ, suc, ◌+◌, ◌-◌, Bool, true, false, not, ◌&&◌, [], ◌∷◌, Option, none, some, Text, if◌then◌else◌,
  ◌==◌, take, is_empty,
}
use agentra.Loop.Policy.{TaskResult}

pub record Scan : Type 0 where
  pub depth : ℕ
  pub in_string : Bool
  pub escape : Bool

-- One round of the loop: the state after a byte, or `none` at the brace that closes the object.
abbrev pub scan_byte : Scan → ℕ → Option Scan
scan_byte s c =
    if s.escape
    then some (record s { escape = false })
    else (if (c == b'\\') && s.in_string
        then some (record s { escape = true })
        else (if c == b'"'
            then some (record s { in_string = not s.in_string })
            else (if s.in_string
                then some s
                else (if c == b'{'
                    then some (record s { depth = s.depth + 1 })
                    else (if c == b'}'
                        then (if s.depth - 1 == 0
                            then none
                            else some (record s { depth = s.depth - 1 }))
                        else some s)))))

-- The number of bytes up to and with the closing brace.
unfoldable pub closing : Scan → Text → Option ℕ
closing s [] = none
closing s (c ∷ cs) = elim (scan_byte s c) [
  | none ↦ some 1
  | some s' ↦ elim (closing s' cs) [ none ↦ none | some n ↦ some (suc n) ]
]

abbrev pub start_scan : Scan
start_scan = record { depth = 0; in_string = false; escape = false }

-- The text from its first opening brace on: s[strings.Index(s, "{"):].
unfoldable pub from_brace : Text → Option Text
from_brace [] = none
from_brace (c ∷ cs) = if c == b'{' then some (c ∷ cs) else from_brace cs

unfoldable pub first_object : Text → Option Text
unfolding closing from_brace
first_object raw = elim (from_brace raw) [
  | none ↦ none
  | some s ↦ elim (closing start_scan s) [ none ↦ none | some n ↦ some (take n s) ]
]

unfoldable pub parse_task_result : (Text → Option TaskResult) → Text → Option TaskResult
unfolding first_object
parse_task_result unmarshal raw = if is_empty raw then none else elim (unmarshal raw) [
  | some r ↦ some r
  | none ↦ elim (first_object raw) [ none ↦ none | some object ↦ unmarshal object ]
]
