-- ===== src/Members/Owned.antt =====
-- The tables of workspaces and members under the requests: the invariant.
use agentra.Base.{
  ℕ, ◌≤◌, ◌≡◌, ◌∙◌, inl, inr, sym, subst, Bool, true, false, not, ◌&&◌, List, [], ◌∷◌, ◌++◌, arith,
  ◌==◌, ==_iff, keep, Bool-cases,
}
use agentra.Members.Tables.{Role, MemberRow, WorkspaceRow, Directory, role_eq}
use agentra.Members.Directory.{new_member, members_of, set_roles, without_member, has_workspace}
use agentra.Members.Guards.{count_owners}
use agentra.Members.Rules.{In}
use agentra.Members.Changes.{is_owner, Change, keeps, joins, ranks, drops, ends}
use agentra.Members.Owners.{
  owners_in, owners_in-append, owners_in-without, owners_in-set_roles, owners_in-elsewhere,
}
use agentra.Members.Identifiers.{
  distinct, below, distinct-append, below-absent, below-append, below_mono, keep-distinct,
  keep-below, set_roles-distinct, set_roles-below,
}

-- Every workspace has an owner; no two members have one identifier, and each was given out.
pub record Owned (d : Directory) : Type 0 where
  pub owned : (w : ℕ) → has_workspace w d.workspaces ≡ true → 1 ≤ owners_in w d.members
  pub distinct_ids : distinct d.members ≡ true
  pub given : below d.next_id d.members ≡ true

-- The same of the parts, for directories whose parts are known.
pub Owned-parts :
    (d : Directory) (ws : List WorkspaceRow) (ms : List MemberRow)
    → d.workspaces ≡ ws
    → d.members ≡ ms
    → ((w : ℕ) → has_workspace w ws ≡ true → 1 ≤ owners_in w ms)
    → distinct ms ≡ true
    → below d.next_id ms ≡ true
    → Owned d
Owned-parts d ws ms e f o u b = record {
  owned = λ w h.
      subst (λ xs. 1 ≤ owners_in w xs) (sym f) (o w (subst (λ xs. has_workspace w xs ≡ true) e h));
  distinct_ids = subst (λ xs. distinct xs ≡ true) (sym f) u;
  given = subst (λ xs. below d.next_id xs ≡ true) (sym f) b;
}

-- Two owners, counted in the workspace of a row that is in `w`.
two_in :
    (w : ℕ) (t : MemberRow) (takes : Bool) (ms : List MemberRow)
    → (t.workspace_id == w) ≡ true
    → (takes ≡ true → 2 ≤ count_owners (members_of t.workspace_id ms))
    → takes ≡ true
    → 2 ≤ owners_in w ms
unfolding owners_in
two_in w t takes ms e h k =
    subst (λ x. 2 ≤ count_owners (members_of x ms)) ((==_iff t.workspace_id w).0 e) (h k)

ranks-owned :
    (w : ℕ) (t : MemberRow) (role : Role) (ms : List MemberRow)
    → distinct ms ≡ true
    → In t ms
    → ((is_owner t && not (role_eq role Role.owner)) ≡ true
        → 2 ≤ count_owners (members_of t.workspace_id ms))
    → 1 ≤ owners_in w ms
    → 1 ≤ owners_in w (set_roles t.id role ms)
ranks-owned w t role ms u i h o =
    let moved = owners_in-set_roles w t role ms u i in
    let takes = is_owner t && not (role_eq role Role.owner) in
    let two = two_in w t takes ms in
    elim (Bool-cases (t.workspace_id == w)) [
      | inr e ↦ ground (arith, e, moved)
      | inl e ↦ elim (Bool-cases takes) [
        | inr k ↦ ground (arith, e, k, moved)
        | inl k ↦ ground (arith, e, k, moved, two e h k)
      ]
    ]

drops-owned :
    (w : ℕ) (t : MemberRow) (ms : List MemberRow)
    → distinct ms ≡ true
    → In t ms
    → (is_owner t ≡ true → 2 ≤ count_owners (members_of t.workspace_id ms))
    → 1 ≤ owners_in w ms
    → 1 ≤ owners_in w (without_member t.id ms)
drops-owned w t ms u i h o =
    let moved = owners_in-without w t ms u i in
    let two = two_in w t (is_owner t) ms in
    elim (Bool-cases (t.workspace_id == w)) [
      | inr e ↦ ground (arith, e, moved)
      | inl e ↦ elim (Bool-cases (is_owner t)) [
        | inr k ↦ ground (arith, e, k, moved)
        | inl k ↦ ground (arith, e, k, moved, two e h k)
      ]
    ]

-- A workspace that is left is another one than the deleted one, and was there.
left_over :
    (w v : ℕ) (ws : List WorkspaceRow)
    → has_workspace w (keep (λ (x : WorkspaceRow). not (x.id == v)) ws) ≡ true
    → ((w == v) ≡ false) × (has_workspace w ws ≡ true)
left_over w v [] h = absurd (cc)
left_over w v (x ∷ xs) h =
    ground (arith, ==_iff x.id w, ==_iff x.id v, ==_iff w v, left_over w v xs)

removed_distinct :
    (id : ℕ) (ms : List MemberRow) → distinct ms ≡ true → distinct (without_member id ms) ≡ true
unfolding without_member
removed_distinct id ms u = keep-distinct (λ (x : MemberRow). not (x.id == id)) ms u

removed_below :
    (n id : ℕ) (ms : List MemberRow) → below n ms ≡ true → below n (without_member id ms) ≡ true
unfolding without_member
removed_below n id ms b = keep-below (λ (x : MemberRow). not (x.id == id)) n ms b

pub Change-Owned : (m : MemberRow) (d d' : Directory) → Change m d d' → Owned d → Owned d'
Change-Owned m d _ (keeps d' e f n) o =
    Owned-parts d' d.workspaces d.members f e o.owned o.distinct_ids
      (below_mono d.next_id d'.next_id d.members o.given n)
Change-Owned m d _ (joins n user role d' h l f e allowed) o =
    let x = new_member n m.workspace_id user role in
    Owned-parts d' d.workspaces (d.members ++ x ∷ []) f e
      (λ w k. omega (arith, o.owned w k, owners_in-append w x d.members))
      (distinct-append x d.members o.distinct_ids (below-absent d.next_id n d.members o.given h))
      (below-append d.next_id d'.next_id x d.members o.given (omega arith) l)
Change-Owned m d _ (ranks t role d' i same f n e allowed spared) o =
    Owned-parts d' d.workspaces (set_roles t.id role d.members) f e
      (λ w k. ranks-owned w t role d.members o.distinct_ids i spared (o.owned w k))
      (set_roles-distinct t.id role d.members ∙ o.distinct_ids)
      (subst (λ x. below x (set_roles t.id role d.members) ≡ true) (sym n)
        (set_roles-below d.next_id t.id role d.members ∙ o.given))
Change-Owned m d _ (drops t d' i same f n e allowed spared) o =
    Owned-parts d' d.workspaces (without_member t.id d.members) f e
      (λ w k. drops-owned w t d.members o.distinct_ids i spared (o.owned w k))
      (removed_distinct t.id d.members o.distinct_ids)
      (subst (λ x. below x (without_member t.id d.members) ≡ true) (sym n)
        (removed_below d.next_id t.id d.members o.given))
Change-Owned m d _ (ends d' f e n owner) o =
    let p = λ (x : MemberRow). not (x.workspace_id == m.workspace_id) in
    Owned-parts d' (keep (λ (x : WorkspaceRow). not (x.id == m.workspace_id)) d.workspaces)
      (keep p d.members) f e
      (λ w k.
        let (other, there) = left_over w m.workspace_id d.workspaces k in
        subst (λ x. 1 ≤ x) (sym (owners_in-elsewhere w m.workspace_id d.members other))
          (o.owned w there))
      (keep-distinct p d.members o.distinct_ids)
      (subst (λ x. below x (keep p d.members) ≡ true) (sym n)
        (keep-below p d.next_id d.members o.given))
