-- ===== src/Ledger/Delivered.antt =====
-- The requests in which the daemon reports the batches (server/internal/daemon/client.go).
use agentra.Base.{
  length-take-le, length-drop, take-drop, ℕ, zero, suc, ◌<◌, ◌≡◌, ◌∙◌, ◌^◌, refl, sym, ap, Bool,
  true, false, not, ◌&&◌, List, [], ◌∷◌, ◌++◌, Text, arith, leb, length, take, drop, is_empty,
}
use mathlib.Core.List.{append_assoc}
use agentra.Daemon.Output.{
  TaskMessage, Action, empty_output, drain, requests, task_message_batch_size,
}
use agentra.Daemon.Numbers.{all_of}
use agentra.Daemon.Numbering.{drain_empty}
use agentra.Ledger.Limits.{any_invalid, any_invalid-append, all_modest, Valid, all_short}
use agentra.Ledger.Accepted.{drain-Valid}

-- What the server asks of the messages of a report.
abbrev pub validated : List TaskMessage → Bool
validated ms =
    not (is_empty ms) && (leb (length ms) task_message_batch_size && not (any_invalid ms))

unfoldable pub all_validated : List (List TaskMessage) → Bool
all_validated [] = true
all_validated (r ∷ rs) = validated r && all_validated rs

abbrev pub requests_of : List TaskMessage → List (List TaskMessage)
requests_of batch = requests (suc (length batch)) batch

-- The requests in which the batches are sent, one after another.
unfoldable pub all_requests : List (List TaskMessage) → List (List TaskMessage)
all_requests [] = []
all_requests (b ∷ bs) = requests_of b ++ all_requests bs

any_invalid-take :
    (n : ℕ) (ms : List TaskMessage) → any_invalid ms ≡ false → any_invalid (take n ms) ≡ false
any_invalid-take zero ms h = refl
any_invalid-take (suc n) [] h = refl
any_invalid-take (suc n) (m ∷ ms) h = ground (arith, any_invalid-take n ms)

any_invalid-drop :
    (n : ℕ) (ms : List TaskMessage) → any_invalid ms ≡ false → any_invalid (drop n ms) ≡ false
any_invalid-drop zero ms h = h
any_invalid-drop (suc n) [] h = refl
any_invalid-drop (suc n) (m ∷ ms) h = ground (arith, any_invalid-drop n ms)

pub requests_validated :
    (rounds : ℕ) (ms : List TaskMessage)
    → any_invalid ms ≡ false
    → all_validated (requests rounds ms) ≡ true
unfolding requests all_validated
requests_validated zero ms h = refl
requests_validated (suc rounds) [] h = refl
requests_validated (suc rounds) (m ∷ ms) h = ground (
  arith,
  length-take-le task_message_batch_size (m ∷ ms),
  any_invalid-take task_message_batch_size (m ∷ ms) h,
  requests_validated rounds (drop task_message_batch_size (m ∷ ms))
      (any_invalid-drop task_message_batch_size (m ∷ ms) h),
)

pub requests_whole :
    (rounds : ℕ) (ms : List TaskMessage) → length ms < rounds → all_of (requests rounds ms) [] ≡ ms
unfolding requests all_of
requests_whole zero ms h = absurd (omega (arith, h))
requests_whole (suc rounds) [] h = refl
requests_whole (suc rounds) (m ∷ ms) h =
    ap (λ r. take task_message_batch_size (m ∷ ms) ++ r)
      (requests_whole rounds (drop task_message_batch_size (m ∷ ms))
        (omega (arith, h, length-drop task_message_batch_size (m ∷ ms))))
    ∙ take-drop task_message_batch_size (m ∷ ms)

all_validated-append :
    (rs qs : List (List TaskMessage))
    → all_validated rs ≡ true
    → all_validated qs ≡ true
    → all_validated (rs ++ qs) ≡ true
unfolding all_validated
all_validated-append [] qs h k = k
all_validated-append (r ∷ rs) qs h k = ground (arith, all_validated-append rs qs)

all_of-append :
    (rs qs : List (List TaskMessage)) → all_of (rs ++ qs) [] ≡ all_of rs [] ++ all_of qs []
unfolding all_of
all_of-append [] qs = refl
all_of-append (r ∷ rs) qs =
    ap (λ xs. r ++ xs) (all_of-append rs qs) ∙ sym (append_assoc r (all_of rs []) (all_of qs []))

batches_validated :
    (bs : List (List TaskMessage))
    → any_invalid (all_of bs []) ≡ false
    → all_validated (all_requests bs) ≡ true
unfolding all_of all_requests all_validated
batches_validated [] h = refl
batches_validated (b ∷ bs) h =
    let split = any_invalid-append b (all_of bs []) in
    all_validated-append (requests_of b) (all_requests bs)
      (requests_validated (suc (length b)) b (ground (arith, split)))
      (batches_validated bs (ground (arith, split)))

batches_whole : (bs : List (List TaskMessage)) → all_of (all_requests bs) [] ≡ all_of bs []
unfolding all_of all_requests
batches_whole [] = refl
batches_whole (b ∷ bs) =
    all_of-append (requests_of b) (all_requests bs)
    ∙ ap (λ xs. xs ++ all_of (all_requests bs) []) (requests_whole (suc (length b)) b (omega arith))
    ∙ ap (λ xs. b ++ xs) (batches_whole bs)

started : Valid empty_output
unfolding all_of all_short
started = record { messages = refl; short = refl }

pub sent_valid :
    (to_valid : Text → Text) (actions : List Action)
    → all_modest actions ≡ true
    → (drain to_valid actions empty_output).seq < 2 ^ 31
    → any_invalid (all_of (drain to_valid actions empty_output).sent []) ≡ false
sent_valid to_valid actions m h =
    ap (λ b. any_invalid (all_of (drain to_valid actions empty_output).sent b))
      (sym (drain_empty to_valid actions empty_output))
    ∙ (drain-Valid to_valid actions empty_output h m started).messages

-- When the names of tools and the inputs that an agent gives them are within the limits, and it has
-- fewer than 2^31 messages, the requests of the daemon carry all the messages of the batches that it
-- flushed, in order, and each request has 1 to TaskMessageBatchSize messages, all of which pass
-- validateTaskMessage.
pub drain_validated :
    (to_valid : Text → Text) (actions : List Action)
    → all_modest actions ≡ true
    → (drain to_valid actions empty_output).seq < 2 ^ 31
    → (all_validated (all_requests (drain to_valid actions empty_output).sent) ≡ true)
      × (all_of (all_requests (drain to_valid actions empty_output).sent) []
          ≡ all_of (drain to_valid actions empty_output).sent [])
drain_validated to_valid actions m h = (
  batches_validated (drain to_valid actions empty_output).sent (sent_valid to_valid actions m h),
  batches_whole (drain to_valid actions empty_output).sent,
)
