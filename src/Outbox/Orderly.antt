-- ===== src/Outbox/Orderly.antt =====
-- The rows of the outbox under the statements on leases: an event of a work item is tried only when
-- the earlier ones are processed or given up.
use agentra.Base.{
  ℕ, ◌+◌, ◌≡◌, refl, Bool, true, false, not, ◌&&◌, ◌||◌, List, [], ◌∷◌, ◌++◌, Option, none, some,
  arith, Bool-cases, inl, inr, ◌==◌, ltb, some_of, is_some,
}
use agentra.Store.Rows.{EventRow}
use agentra.Store.Leases.{is_waiting, held_up, leased, change_held}

-- A token is below the next identifier, and only a waiting event has one.
abbrev pub token_ok : ℕ → Option ℕ → EventRow → Bool
token_ok n none e = true
token_ok n (some k) e = is_waiting e && ltb k n

-- A later event of the same work item that was tried.
abbrev pub tried_after : EventRow → List EventRow → Bool
tried_after e later = some_of (λ f. (f.work_item_id == e.work_item_id) && ltb 0 f.attempts) later

unfoldable pub orderly : ℕ → List EventRow → Bool
orderly n [] = true
orderly n (e ∷ es) =
    token_ok n e.lock_token e && ((not (is_waiting e) || not (tried_after e es)) && orderly n es)

module _ (held : EventRow → Bool) (change : EventRow → EventRow)
    (item : (e : EventRow) → (change e).work_item_id ≡ e.work_item_id)
    (attempts : (e : EventRow) → (change e).attempts ≡ e.attempts)
    (token : (e : EventRow) → (change e).lock_token ≡ none)
    (has_token : (e : EventRow) → held e ≡ true → is_some e.lock_token ≡ true) where
  change_held-tried :
      (x : EventRow) (es : List EventRow)
      → tried_after x (change_held held change es) ≡ tried_after x es
  unfolding change_held
  change_held-tried x [] = refl
  change_held-tried x (e ∷ es) = ground (arith, item e, attempts e, change_held-tried x es)

  change_held-item :
      (x : EventRow) (es : List EventRow) → tried_after (change x) es ≡ tried_after x es
  change_held-item x es = rw (item x) refl

  -- Giving up a lease, for good or for a while, keeps the rows orderly.
  pub change_held-orderly :
      (n : ℕ) (es : List EventRow)
      → orderly n es ≡ true
      → orderly n (change_held held change es) ≡ true
  unfolding change_held orderly
  change_held-orderly n [] h = refl
  change_held-orderly n (e ∷ es) h = elim (Bool-cases (held e)) [
    | inl k ↦ ground (
      arith,
      has_token e k,
      token e,
      change_held-item e (change_held held change es),
      change_held-tried e es,
      change_held-orderly n es,
    )
    | inr k ↦ ground (arith, change_held-tried e es, change_held-orderly n es)
  ]

pub tried_append :
    (x e : EventRow) (fs es : List EventRow)
    → tried_after x (fs ++ e ∷ es) ≡ (
        tried_after x fs
        || (((e.work_item_id == x.work_item_id) && ltb 0 e.attempts) || tried_after x es))
tried_append x e [] es = refl
tried_append x e (f ∷ fs) es = ground (arith, tried_append x e fs es)

orderly_next : (n : ℕ) (es : List EventRow) → orderly n es ≡ true → orderly (n + 1) es ≡ true
unfolding orderly
orderly_next n [] h = refl
orderly_next n (e ∷ es) h = ground (arith, orderly_next n es)

-- Taking the lease of an event that none holds up keeps the rows orderly.
pub leased-orderly :
    (n now : ℕ) (e : EventRow) (fs es : List EventRow)
    → is_waiting e ≡ true
    → held_up fs e ≡ false
    → orderly n (fs ++ e ∷ es) ≡ true
    → orderly (n + 1) (fs ++ leased now n e ∷ es) ≡ true
unfolding orderly
leased-orderly n now e [] es w h o = ground (arith, orderly_next n es)
leased-orderly n now e (f ∷ fs) es w h o = ground (
  arith,
  tried_append f e fs es,
  tried_append f (leased now n e) fs es,
  leased-orderly n now e fs es w,
)
