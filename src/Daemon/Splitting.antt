-- ===== src/Daemon/Splitting.antt =====
-- The chunks of a message: none is too long, and together they are the message.
use agentra.Base.{
  ℕ, zero, suc, ◌-◌, ◌≤◌, ◌<◌, ◌≡◌, refl, ap, ◌∙◌, Bool, true, false, not, ◌&&◌, List, [], ◌∷◌,
  ◌++◌, some, Text, leb, ltb, length, take, drop, is_empty, arith, length-take-le, length-drop,
  take-drop, Bool-cases, inl, inr,
}
use agentra.Daemon.Messages.{
  walk_back, chunk_end, chunks, split_task_message_content, task_message_field_bytes,
}

walk_back_le : (content : Text) (e : ℕ) → walk_back content e ≤ e
unfolding walk_back
walk_back_le content zero = omega arith
walk_back_le content (suc e) = ground (arith, walk_back_le content e)

chunk_end_le : (limit : ℕ) (content : Text) → chunk_end limit content ≤ limit
unfolding chunk_end
chunk_end_le limit content = ground (arith, walk_back_le content limit)

chunk_end_pos : (limit : ℕ) (content : Text) → 0 < limit → 0 < chunk_end limit content
unfolding chunk_end
chunk_end_pos limit content h = ground arith

unfoldable pub joined : List Text → Text
joined [] = []
joined (c ∷ cs) = c ++ joined cs

-- Whether every chunk has a byte and at most `limit`.
unfoldable pub all_fit : ℕ → List Text → Bool
all_fit limit [] = true
all_fit limit (c ∷ cs) = not (is_empty c) && (leb (length c) limit && all_fit limit cs)

-- The chunks of a text, with what they promise.
pub record Split (limit rounds : ℕ) (content : Text) : Type 0 where
  pub parts : List Text
  pub result : chunks limit rounds content ≡ some parts
  pub whole : joined parts ≡ content
  pub fit : all_fit limit parts ≡ true

take_nonempty : (n : ℕ) (xs : Text) → 0 < n → 0 < length xs → is_empty (take n xs) ≡ false
take_nonempty zero xs h k = absurd (omega (arith, h))
take_nonempty (suc n) [] h k = absurd (omega (arith, k))
take_nonempty (suc n) (x ∷ xs) h k = refl

shorter : (n k limit rounds : ℕ) → 0 < k → ltb limit n ≡ true → n < suc rounds → n - k < rounds
shorter n k limit rounds pos long h = ground arith

append_nil : (xs : Text) → xs ++ [] ≡ xs
append_nil [] = refl
append_nil (x ∷ xs) = ap (λ r. x ∷ r) (append_nil xs)

last-Split :
    (limit rounds : ℕ) (content : Text)
    → ltb limit (length content) ≡ false
    → Split limit (suc rounds) content
unfolding chunks joined all_fit
last-Split limit rounds [] h = record {
  parts = [];
  result = rw (chunks, h) refl;
  whole = refl;
  fit = refl;
}
last-Split limit rounds (x ∷ xs) h = record {
  parts = (x ∷ xs) ∷ [];
  result = rw (chunks, h) refl;
  whole = append_nil (x ∷ xs);
  fit = ground arith;
}

next-Split :
    (limit rounds : ℕ) (content : Text)
    → 0 < limit
    → ltb limit (length content) ≡ true
    → Split limit rounds (drop (chunk_end limit content) content)
    → Split limit (suc rounds) content
unfolding chunks joined all_fit
next-Split limit rounds content pos h s = record {
  parts = take (chunk_end limit content) content ∷ s.parts;
  result = rw (chunks, h, s.result) refl;
  whole =
      ap (λ r. take (chunk_end limit content) content ++ r) s.whole
      ∙ take-drop (chunk_end limit content) content;
  fit = ground (
    arith,
    s.fit,
    take_nonempty (chunk_end limit content) content (chunk_end_pos limit content pos),
    length-take-le (chunk_end limit content) content,
    chunk_end_le limit content,
  );
}

drop_shorter :
    (limit rounds : ℕ) (content : Text)
    → 0 < limit
    → ltb limit (length content) ≡ true
    → length content < suc rounds
    → length (drop (chunk_end limit content) content) < rounds
drop_shorter limit rounds content pos long h = rw (length-drop (chunk_end limit content) content) (
    shorter (length content) (chunk_end limit content) limit rounds
      (chunk_end_pos limit content pos) long h)

chunks-Split :
    (limit rounds : ℕ) (content : Text)
    → 0 < limit
    → length content < rounds
    → Split limit rounds content
chunks-Split limit zero content pos h = absurd (omega (arith, h))
chunks-Split limit (suc rounds) content pos h = elim (Bool-cases (ltb limit (length content))) [
  | inr short ↦ last-Split limit rounds content short
  | inl long ↦ next-Split limit rounds content pos long (
      chunks-Split limit rounds (drop (chunk_end limit content) content) pos
        (drop_shorter limit rounds content pos long h))
]

-- Splitting a message comes to an end: its chunks together are the message in valid UTF-8, and each
-- has at least one byte and at most TaskMessageFieldBytes.
pub split_task_message_content-Split :
    (to_valid : Text → Text) (content : Text)
    → (parts : List Text) × (split_task_message_content to_valid content ≡ some parts)
      × (joined parts ≡ to_valid content)
      × (all_fit task_message_field_bytes parts ≡ true)
unfolding split_task_message_content
split_task_message_content-Split to_valid content =
    let s =
      chunks-Split task_message_field_bytes (suc (length (to_valid content))) (to_valid content)
        (omega arith) (omega arith) in
    (s.parts, s.result, s.whole, s.fit)
