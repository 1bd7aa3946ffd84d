-- ===== src/Runtime/Exclusive.antt =====
-- At most one update of a runtime is in progress, whatever is asked of the store and in which order.
use agentra.Base.{
  ℕ, suc, ◌≤◌, ◌≡◌, refl, Bool, true, false, not, List, [], ◌∷◌, Text, arith, if◌then◌else◌, keep,
  some_of, Bool-cases, inl, inr,
}
use agentra.Runtime.Updates.{
  UpdateRequest, open_for, recent, named, create, change_named, timed_out, get, pop_pending,
  completed_with, complete, failed_with, fail,
}

-- How many updates of a runtime are in progress.
unfoldable pub count_open : ℕ → List UpdateRequest → ℕ
count_open runtime [] = 0
count_open runtime (r ∷ rs) =
    let rest = count_open runtime rs in if open_for runtime r then suc rest else rest

-- What is asked of the store: at a time, with the identifier of a new request.
pub data Request : Type 0 where
  creates : ℕ → ℕ → ℕ → Text → Request
  gets : ℕ → ℕ → Request
  pops : ℕ → ℕ → Request
  completes : ℕ → ℕ → Text → Request
  fails_with : ℕ → ℕ → Text → Request

unfoldable pub after : Request → List UpdateRequest → List UpdateRequest
unfolding create get pop_pending complete fail
after (creates now id runtime version) rs = (create now id runtime version rs).1
after (gets now id) rs = (get now id rs).1
after (pops now runtime) rs = (pop_pending now runtime rs).1
after (completes now id output) rs = complete now id output rs
after (fails_with now id error) rs = fail now id error rs

unfoldable pub after_all : List Request → List UpdateRequest → List UpdateRequest
unfolding after
after_all [] rs = rs
after_all (q ∷ qs) rs = after_all qs (after q rs)

count_keep :
    (a : ℕ) (p : UpdateRequest → Bool) (rs : List UpdateRequest)
    → count_open a (keep p rs) ≤ count_open a rs
unfolding count_open
count_keep a p [] = omega arith
count_keep a p (r ∷ rs) = ground (arith, count_keep a p rs)

count_none :
    (a : ℕ) (rs : List UpdateRequest) → some_of (open_for a) rs ≡ false → count_open a rs ≡ 0
unfolding count_open
count_none a [] h = refl
count_none a (r ∷ rs) h = ground (arith, count_none a rs)

count_change :
    (a id : ℕ) (change : UpdateRequest → UpdateRequest)
    → ((r : UpdateRequest) → open_for a (change r) ≡ true → open_for a r ≡ true)
    → (rs : List UpdateRequest) → count_open a (change_named id change rs).1 ≤ count_open a rs
unfolding count_open change_named
count_change a id change f [] = omega arith
count_change a id change f (r ∷ rs) = ground (arith, f r, count_change a id change f rs)

count_pop :
    (a now runtime : ℕ) (rs : List UpdateRequest)
    → count_open a (pop_pending now runtime rs).1 ≡ count_open a rs
unfolding count_open pop_pending
count_pop a now runtime [] = refl
count_pop a now runtime (r ∷ rs) = ground (arith, count_pop a now runtime rs)

count_create :
    (a now id runtime : ℕ) (version : Text) (rs : List UpdateRequest)
    → count_open a rs ≤ 1
    → count_open a (create now id runtime version rs).1 ≤ 1
unfolding create count_open
count_create a now id runtime version rs h =
    elim (Bool-cases (some_of (open_for runtime) (keep (recent now) rs))) [
      | inl busy ↦ rw (create, busy) (omega (arith, count_keep a (recent now) rs, h))
      | inr free ↦
          rw (create, free)
            (ground (
              arith,
              count_none runtime (keep (recent now) rs) free,
              count_keep a (recent now) rs,
              count_keep a (λ q. not (named id q)) (keep (recent now) rs),
            ))
    ]

after-exclusive :
    (a : ℕ) (q : Request) (rs : List UpdateRequest)
    → count_open a rs ≤ 1
    → count_open a (after q rs) ≤ 1
unfolding after get complete fail
after-exclusive a (creates now id runtime version) rs h = count_create a now id runtime version rs h
after-exclusive a (gets now id) rs h =
    omega (arith, h, count_change a id (timed_out now) (λ r k. ground arith) rs)
after-exclusive a (pops now runtime) rs h = omega (arith, h, count_pop a now runtime rs)
after-exclusive a (completes now id output) rs h =
    omega (arith, h, count_change a id (completed_with now output) (λ r k. ground arith) rs)
after-exclusive a (fails_with now id error) rs h =
    omega (arith, h, count_change a id (failed_with now error) (λ r k. ground arith) rs)

-- From a store with at most one update of a runtime in progress, such as an empty one, any sequence
-- of requests leads to a store with at most one.
pub after_all-exclusive :
    (a : ℕ) (qs : List Request) (rs : List UpdateRequest)
    → count_open a rs ≤ 1
    → count_open a (after_all qs rs) ≤ 1
unfolding after_all
after_all-exclusive a [] rs h = h
after_all-exclusive a (q ∷ qs) rs h =
    after_all-exclusive a qs (after q rs) (after-exclusive a q rs h)
