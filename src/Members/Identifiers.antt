-- ===== src/Members/Identifiers.antt =====
-- Rows told apart by their identifiers, under the changes of members.
use agentra.Base.{
  ℕ, ◌≤◌, ◌<◌, ◌≡◌, inl, inr, refl, sym, ap, subst, Bool, true, false, not, ◌&&◌, ◌||◌, List, [],
  ◌∷◌, ◌++◌, arith, ◌==◌, ==_iff, ltb, keep, some_of,
}
use agentra.Members.Tables.{Role, MemberRow}
use agentra.Members.Directory.{set_roles, without_member}
use agentra.Members.Rules.{In}

abbrev has_id : ℕ → MemberRow → Bool
has_id id m = m.id == id

-- No two rows have one identifier.
unfoldable pub distinct : List MemberRow → Bool
distinct [] = true
distinct (m ∷ ms) = not (some_of (has_id m.id) ms) && distinct ms

-- Every identifier has been given out.
unfoldable pub below : ℕ → List MemberRow → Bool
below n [] = true
below n (m ∷ ms) = ltb m.id n && below n ms

absent-without :
    (id : ℕ) (ms : List MemberRow) → some_of (has_id id) ms ≡ false → without_member id ms ≡ ms
unfolding without_member
absent-without id [] h = refl
absent-without id (m ∷ ms) h = ground (arith, absent-without id ms)

absent-set_roles :
    (id : ℕ) (role : Role) (ms : List MemberRow)
    → some_of (has_id id) ms ≡ false
    → set_roles id role ms ≡ ms
unfolding set_roles
absent-set_roles id role [] h = refl
absent-set_roles id role (m ∷ ms) h = ground (arith, absent-set_roles id role ms)

In-has_id : (t : MemberRow) (ms : List MemberRow) → In t ms → some_of (has_id t.id) ms ≡ true
In-has_id t [] i = absurd i
In-has_id t (m ∷ ms) (inl e) = ground (arith, ==_iff m.id t.id, ap (λ (x : MemberRow). x.id) e)
In-has_id t (m ∷ ms) (inr i) = ground (arith, In-has_id t ms i)

pub without-head :
    (m : MemberRow) (ms : List MemberRow)
    → some_of (has_id m.id) ms ≡ false
    → without_member m.id (m ∷ ms) ≡ ms
unfolding without_member
without-head m ms h = ground (arith, ==_iff m.id m.id, absent-without m.id ms)

pub without-tail :
    (id : ℕ) (m : MemberRow) (ms : List MemberRow)
    → (m.id == id) ≡ false
    → without_member id (m ∷ ms) ≡ m ∷ without_member id ms
unfolding without_member
without-tail id m ms h = ground arith

pub set-head :
    (role : Role) (m : MemberRow) (ms : List MemberRow)
    → some_of (has_id m.id) ms ≡ false
    → set_roles m.id role (m ∷ ms) ≡ record m { role = role } ∷ ms
unfolding set_roles
set-head role m ms h = ground (arith, ==_iff m.id m.id, absent-set_roles m.id role ms)

pub set-tail :
    (id : ℕ) (role : Role) (m : MemberRow) (ms : List MemberRow)
    → (m.id == id) ≡ false
    → set_roles id role (m ∷ ms) ≡ m ∷ set_roles id role ms
unfolding set_roles
set-tail id role m ms h = ground arith

-- The head of a list without repetitions is not a row of its tail.
apart :
    (t m : MemberRow) (ms : List MemberRow)
    → distinct (m ∷ ms) ≡ true
    → In t ms
    → (m.id == t.id) ≡ false
unfolding distinct
apart t m ms u i = ground (arith, ==_iff m.id t.id, In-has_id t ms i)

-- The row of a change, wherever it stands: the head, or a row of the tail.
pub at_row :
    (t : MemberRow) (P : List MemberRow → Type 0)
    → ((ms : List MemberRow) → some_of (has_id t.id) ms ≡ false → P (t ∷ ms))
    → ((m : MemberRow) (ms : List MemberRow) → (m.id == t.id) ≡ false → P ms → P (m ∷ ms))
    → (ms : List MemberRow) → distinct ms ≡ true
    → In t ms
    → P ms
unfolding distinct
at_row t P head tail [] u i = absurd i
at_row t P head tail (m ∷ ms) u (inl e) =
    subst (λ (x : MemberRow). P (x ∷ ms)) (sym e)
      (head ms (subst (λ (x : MemberRow). some_of (has_id x.id) ms ≡ false) e (ground arith)))
at_row t P head tail (m ∷ ms) u (inr i) =
    tail m ms (apart t m ms u i) (at_row t P head tail ms (ground arith) i)

some_of-append :
    (id : ℕ) (ms : List MemberRow) (m : MemberRow)
    → some_of (has_id id) (ms ++ m ∷ []) ≡ (some_of (has_id id) ms || (m.id == id))
some_of-append id [] m = ground arith
some_of-append id (x ∷ xs) m = ground (arith, some_of-append id xs m)

pub distinct-append :
    (m : MemberRow) (ms : List MemberRow)
    → distinct ms ≡ true
    → some_of (has_id m.id) ms ≡ false
    → distinct (ms ++ m ∷ []) ≡ true
unfolding distinct
distinct-append m [] u h = refl
distinct-append m (x ∷ xs) u h =
    ground (arith, ==_iff x.id m.id, some_of-append x.id xs m, distinct-append m xs)

pub below-absent :
    (n id : ℕ) (ms : List MemberRow) → below n ms ≡ true → n ≤ id → some_of (has_id id) ms ≡ false
unfolding below
below-absent n id [] b h = refl
below-absent n id (m ∷ ms) b h = ground (arith, below-absent n id ms)

pub below-append :
    (n k : ℕ) (m : MemberRow) (ms : List MemberRow)
    → below n ms ≡ true
    → n ≤ k
    → m.id < k
    → below k (ms ++ m ∷ []) ≡ true
unfolding below
below-append n k m [] b h l = ground arith
below-append n k m (x ∷ xs) b h l = ground (arith, below-append n k m xs)

pub below_mono : (n k : ℕ) (ms : List MemberRow) → below n ms ≡ true → n ≤ k → below k ms ≡ true
unfolding below
below_mono n k [] b h = refl
below_mono n k (m ∷ ms) b h = ground (arith, below_mono n k ms)

keep-absent :
    (p : MemberRow → Bool) (id : ℕ) (ms : List MemberRow)
    → some_of (has_id id) ms ≡ false
    → some_of (has_id id) (keep p ms) ≡ false
keep-absent p id [] h = refl
keep-absent p id (m ∷ ms) h = ground (arith, keep-absent p id ms)

pub keep-distinct :
    (p : MemberRow → Bool) (ms : List MemberRow) → distinct ms ≡ true → distinct (keep p ms) ≡ true
unfolding distinct
keep-distinct p [] u = refl
keep-distinct p (m ∷ ms) u = ground (arith, keep-absent p m.id ms, keep-distinct p ms)

pub keep-below :
    (p : MemberRow → Bool) (n : ℕ) (ms : List MemberRow)
    → below n ms ≡ true
    → below n (keep p ms) ≡ true
unfolding below
keep-below p n [] b = refl
keep-below p n (m ∷ ms) b = ground (arith, keep-below p n ms)

set_roles-has_id :
    (j id : ℕ) (role : Role) (ms : List MemberRow)
    → some_of (has_id j) (set_roles id role ms) ≡ some_of (has_id j) ms
unfolding set_roles
set_roles-has_id j id role [] = refl
set_roles-has_id j id role (m ∷ ms) = ground (arith, set_roles-has_id j id role ms)

pub set_roles-distinct :
    (id : ℕ) (role : Role) (ms : List MemberRow) → distinct (set_roles id role ms) ≡ distinct ms
unfolding set_roles distinct
set_roles-distinct id role [] = refl
set_roles-distinct id role (m ∷ ms) =
    ground (arith, set_roles-has_id m.id id role ms, set_roles-distinct id role ms)

pub set_roles-below :
    (n id : ℕ) (role : Role) (ms : List MemberRow) → below n (set_roles id role ms) ≡ below n ms
unfolding set_roles below
set_roles-below n id role [] = refl
set_roles-below n id role (m ∷ ms) = ground (arith, set_roles-below n id role ms)
