-- ===== src/Runtime/Oldest.antt =====
-- A daemon is given the pings of its runtime in the order of their creation.
use agentra.Base.{
  ℕ, ◌⊎◌, ◌≡◌, refl, Bool, true, false, not, ◌&&◌, ◌||◌, List, [], ◌∷◌, Option, none, some, arith,
  leb, some_of, Bool-cases, Option-cases, some-none, inl, inr,
}
use agentra.Runtime.Pings.{PingRequest, waits_for, older, find_oldest, started, pop_pending}

-- Whether no pending ping of the runtime is older than a time.
unfoldable pub none_older : ℕ → ℕ → List PingRequest → Bool
none_older runtime at [] = true
none_older runtime at (p ∷ ps) =
    (not (waits_for runtime p) || leb at p.created_at) && none_older runtime at ps

abbrev not_after : Option PingRequest → ℕ → Bool
not_after none at = true
not_after (some p) at = leb at p.created_at

abbrev waiting_or_none : ℕ → Option PingRequest → Bool
waiting_or_none runtime none = true
waiting_or_none runtime (some p) = waits_for runtime p

find_oldest_sound :
    (runtime : ℕ) (o : Option PingRequest) (ps : List PingRequest) (p : PingRequest)
    → waiting_or_none runtime o ≡ true
    → find_oldest runtime o ps ≡ some p
    → (waits_for runtime p ≡ true)
      × (not_after o p.created_at ≡ true)
      × (none_older runtime p.created_at ps ≡ true)
unfolding find_oldest none_older
find_oldest_sound runtime o [] p w h = (ground arith, ground arith, refl)
find_oldest_sound runtime o (q ∷ ps) p w h = elim (Bool-cases (waits_for runtime q)) [
  | inl k ↦
      let (a, b, c) =
        find_oldest_sound runtime (some (older q o)) ps p (ground arith)
          (rw (find_oldest, k) at h) in
      (a, ground arith, ground arith)
  | inr k ↦
      let (a, b, c) = find_oldest_sound runtime o ps p w (rw (find_oldest, k) at h) in
      (a, b, ground arith)
]

find_oldest-none :
    (runtime : ℕ) (o : Option PingRequest) (ps : List PingRequest)
    → find_oldest runtime o ps ≡ none
    → (o ≡ none) × (some_of (waits_for runtime) ps ≡ false)
unfolding find_oldest
find_oldest-none runtime o [] h = (h, refl)
find_oldest-none runtime o (q ∷ ps) h = elim (Bool-cases (waits_for runtime q)) [
  | inl k ↦
      let (a, b) = find_oldest-none runtime (some (older q o)) ps (rw (find_oldest, k) at h) in
      absurd (some-none _ a)
  | inr k ↦
      let (a, b) = find_oldest-none runtime o ps (rw (find_oldest, k) at h) in (a, ground arith)
]

pop_found :
    (now runtime : ℕ) (ps : List PingRequest) (p : PingRequest)
    → find_oldest runtime none ps ≡ some p
    → (pop_pending now runtime ps).0 ≡ some (started now p)
unfolding pop_pending
pop_found now runtime ps p h = rw (pop_pending, h) refl

pop_none :
    (now runtime : ℕ) (ps : List PingRequest)
    → find_oldest runtime none ps ≡ none
    → (pop_pending now runtime ps).0 ≡ none
unfolding pop_pending
pop_none now runtime ps h = rw (pop_pending, h) refl

-- A daemon that asks for a ping of its runtime is told that there is none only when none is pending;
-- otherwise it is given a pending ping of the runtime, now running, and no pending one is older.
pub pop_pending_oldest :
    (now runtime : ℕ) (ps : List PingRequest)
    → (((pop_pending now runtime ps).0 ≡ none) × (some_of (waits_for runtime) ps ≡ false))
      ⊎ ((p : PingRequest) × ((pop_pending now runtime ps).0 ≡ some (started now p))
          × (waits_for runtime p ≡ true)
          × (none_older runtime p.created_at ps ≡ true))
pop_pending_oldest now runtime ps = elim (Option-cases (find_oldest runtime none ps)) [
  | inl e ↦ inl (pop_none now runtime ps e, (find_oldest-none runtime none ps e).1)
  | inr (p, e) ↦
      let (a, b, c) = find_oldest_sound runtime none ps p refl e in
      inr (p, pop_found now runtime ps p e, a, c)
]
