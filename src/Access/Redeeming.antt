-- ===== src/Access/Redeeming.antt =====
-- A one-time code is redeemed once, in time, and by its own token.
use agentra.Base.{
  ℕ, ◌+◌, ◌≤◌, ◌≡◌, ◌≢◌, refl, sym, ap, subst, Bool, not, List, [], ◌∷◌, none, some, arith,
  if◌then◌else◌, ◌==◌, keep, length, inl, inr, Bool-cases,
}
use agentra.Access.OneTime.{Entry, Store, without, find, put, take, sweep_expired, expired, redeem}

find-without : (code : ℕ) (es : List Entry) → find code (without code es) ≡ none
find-without code [] = refl
find-without code (e ∷ es) = ground (arith, find-without code es)

find-without-none :
    (code other : ℕ) (es : List Entry) → find code es ≡ none → find code (without other es) ≡ none
find-without-none code other [] h = refl
find-without-none code other (e ∷ es) h = ground (arith, find-without-none code other es)

find-without_other :
    (code other : ℕ) (es : List Entry) → code ≢ other → find code (without other es) ≡ find code es
find-without_other code other [] n = refl
find-without_other code other (e ∷ es) n = ground (arith, find-without_other code other es n)

-- A code that was put is redeemed for its token while its time to live has not passed, and a second
-- attempt at it fails, also when some code is redeemed in between.
pub put-take :
    (s : Store) (fresh now token later code again : ℕ)
    → later ≤ now + s.ttl
    → ((take later fresh (put fresh now token s).1).0 ≡ some token)
      × ((take again fresh (take later code (take later fresh (put fresh now token s).1).1).1).0
          ≡ none)
unfolding put take
put-take s fresh now token later code again h = (
  ground arith,
  ap (redeem again) (
      find-without-none fresh code (without fresh (put fresh now token s).1.entries)
        (find-without fresh (put fresh now token s).1.entries)),
)

-- Redeeming one code does not change what a different code is redeemed for.
pub take_other :
    (s : Store) (code other now later : ℕ)
    → code ≢ other
    → (take later code (take now other s).1).0 ≡ (take later code s).0
unfolding take
take_other s code other now later n = ground (arith, find-without_other code other s.entries n)

-- No two entries of one code, as in a map.
unfoldable pub Distinct : List Entry → Type 0
Distinct [] = Unit {0}
Distinct (e ∷ es) = (find e.code es ≡ none) × Distinct es

find-keep :
    (p : Entry → Bool) (code : ℕ) (es : List Entry)
    → find code es ≡ none
    → find code (keep p es) ≡ none
find-keep p code [] h = refl
find-keep p code (e ∷ es) h = ground (arith, find-keep p code es)

keep-Distinct : (p : Entry → Bool) (es : List Entry) → Distinct es → Distinct (keep p es)
unfolding Distinct
keep-Distinct p [] d = tt
keep-Distinct p (e ∷ es) (n, d) = elim (Bool-cases (p e)) [
  | inl y ↦
      subst Distinct (sym (ap (λ b. if b then e ∷ keep p es else keep p es) y))
        (find-keep p e.code es n, keep-Distinct p es d)
  | inr y ↦
      subst Distinct (sym (ap (λ b. if b then e ∷ keep p es else keep p es) y))
        (keep-Distinct p es d)
]

-- Every operation keeps one entry to a code.
pub operations-Distinct :
    (s : Store) (fresh now token code : ℕ)
    → Distinct s.entries
    → Distinct (put fresh now token s).1.entries
      × Distinct (take now code s).1.entries
      × Distinct (sweep_expired now s).1.entries
unfolding put take sweep_expired Distinct
operations-Distinct s fresh now token code d = (
  (find-without fresh s.entries, keep-Distinct (λ e. not (e.code == fresh)) s.entries d),
  keep-Distinct (λ e. not (e.code == code)) s.entries d,
  keep-Distinct (λ e. not (expired now e)) s.entries d,
)

find-sweep :
    (now later code : ℕ) (es : List Entry)
    → now ≤ later
    → Distinct es
    → redeem later (find code (keep (λ e. not (expired now e)) es)) ≡ redeem later (find code es)
unfolding Distinct
find-sweep now later code [] h d = refl
find-sweep now later code (e ∷ es) h (n, d) =
    ground
      (arith, find-sweep now later code es h d, find-keep (λ e. not (expired now e)) e.code es n, n)

length-keep-split :
    (now : ℕ) (es : List Entry)
    → length es ≡ length (keep (λ e. not (expired now e)) es) + length (keep (expired now) es)
length-keep-split now [] = omega arith
length-keep-split now (e ∷ es) = ground (arith, length-keep-split now es)

-- In a store with one entry to a code, a sweep counts the expired entries and changes no later
-- redemption.
pub sweep_expired_lem :
    (s : Store) (now later code : ℕ)
    → now ≤ later
    → Distinct s.entries
    → ((sweep_expired now s).0 ≡ length (keep (expired now) s.entries))
      × ((take later code (sweep_expired now s).1).0 ≡ (take later code s).0)
unfolding sweep_expired take
sweep_expired_lem s now later code h d =
    (omega (arith, length-keep-split now s.entries), find-sweep now later code s.entries h d)
