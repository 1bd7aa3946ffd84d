-- ===== src/Members/Owners.antt =====
-- How many owners a workspace has, under the changes of members.
use agentra.Base.{
  ℕ, ◌+◌, ◌≡◌, refl, true, false, not, ◌&&◌, List, [], ◌∷◌, ◌++◌, arith, ◌==◌, ==_iff,
  if◌then◌else◌, keep,
}
use agentra.Members.Tables.{Role, MemberRow}
use agentra.Members.Directory.{members_of, set_roles, without_member}
use agentra.Members.Guards.{count_owners}
use agentra.Members.Rules.{In}
use agentra.Members.Changes.{is_owner}
use agentra.Members.Identifiers.{distinct, without-head, without-tail, set-head, set-tail, at_row}

-- As the handlers count them.
unfoldable pub owners_in : ℕ → List MemberRow → ℕ
unfolding count_owners
owners_in w ms = count_owners (members_of w ms)

-- 1 for an owner of the workspace.
abbrev weight : ℕ → MemberRow → ℕ
weight w m = if (m.workspace_id == w) && is_owner m then 1 else 0

owners_in-cons :
    (w : ℕ) (m : MemberRow) (ms : List MemberRow)
    → owners_in w (m ∷ ms) ≡ weight w m + owners_in w ms
unfolding owners_in
owners_in-cons w m ms = ground arith

pub owners_in-append :
    (w : ℕ) (m : MemberRow) (ms : List MemberRow)
    → owners_in w (ms ++ m ∷ []) ≡ owners_in w ms + weight w m
owners_in-append w m [] = ground (arith, owners_in-cons w m [])
owners_in-append w m (x ∷ xs) =
    omega (arith, owners_in-cons w x xs, owners_in-cons w x (xs ++ m ∷ []), owners_in-append w m xs)

-- A member that is removed takes its weight away.
pub owners_in-without :
    (w : ℕ) (t : MemberRow) (ms : List MemberRow)
    → distinct ms ≡ true
    → In t ms
    → weight w t + owners_in w (without_member t.id ms) ≡ owners_in w ms
owners_in-without w t =
    at_row t (λ ms. weight w t + owners_in w (without_member t.id ms) ≡ owners_in w ms)
      (λ ms a. rw (without-head t ms a) (omega (arith, owners_in-cons w t ms)))
      (λ m ms n ih.
        rw (without-tail t.id m ms n)
          (omega (arith, ih, owners_in-cons w m ms, owners_in-cons w m (without_member t.id ms))))

pub owners_in-set_roles :
    (w : ℕ) (t : MemberRow) (role : Role) (ms : List MemberRow)
    → distinct ms ≡ true
    → In t ms
    → weight w t + owners_in w (set_roles t.id role ms)
      ≡ weight w (record t { role = role }) + owners_in w ms
owners_in-set_roles w t role =
    at_row t
      (λ ms.
        weight w t + owners_in w (set_roles t.id role ms)
        ≡ weight w (record t { role = role }) + owners_in w ms)
      (λ ms a.
        rw (set-head role t ms a)
          (omega (arith, owners_in-cons w t ms, owners_in-cons w (record t { role = role }) ms)))
      (λ m ms n ih.
        rw (set-tail t.id role m ms n)
          (omega (arith, ih, owners_in-cons w m ms, owners_in-cons w m (set_roles t.id role ms))))

-- A workspace that is not the one deleted keeps its owners.
pub owners_in-elsewhere :
    (w v : ℕ) (ms : List MemberRow)
    → (w == v) ≡ false
    → owners_in w (keep (λ m. not (m.workspace_id == v)) ms) ≡ owners_in w ms
owners_in-elsewhere w v [] n = refl
owners_in-elsewhere w v (m ∷ ms) n = ground (
  arith,
  ==_iff w v,
  owners_in-cons w m ms,
  owners_in-elsewhere w v ms,
  owners_in-cons w m (keep (λ (x : MemberRow). not (x.workspace_id == v)) ms),
)
