-- ===== src/Members/Founding.antt =====
-- A new workspace and its owner, in one transaction (server/internal/handler/workspace.go).
use agentra.Base.{
  ℕ, ◌+◌, ◌≡◌, ◌∙◌, inl, inr, refl, ap, Bool, true, false, ◌||◌, List, [], ◌∷◌, ◌++◌, Option, none,
  some, Text, arith, ◌==◌, is_empty, to_lower, trim_space, if◌then◌else◌, Bool-cases,
}
use agentra.Members.Tables.{
  Role, MemberRow, WorkspaceRow, Query, Directory, Failure, no_rows, unique_violation, ok,
}
use agentra.Members.Directory.{
  create_workspace, create_member, insert_member, new_member, has_workspace,
}
use agentra.Members.Guards.{
  Response, unauthorized, forbidden, bad_request, not_found, conflict, no_content, created, updated,
  server_error, created_workspace, Handler, Param, is_absent, parse_uuid,
}
use agentra.Members.Handlers.{
  create_workspace_request, named_workspace, in_transaction, committed, founded, creation_failed,
}
use agentra.Members.Rules.{attempt_both, unless_rule}
use agentra.Members.Joining.{inserted}
use agentra.Members.Owners.{owners_in-append}
use agentra.Members.Identifiers.{distinct-append, below-absent, below-append}
use agentra.Members.Owned.{Owned, Owned-parts}

abbrev is_founded : Response → Bool
is_founded (created_workspace id) = true
is_founded _ = false

-- A founded workspace leaves the invariant in place.
abbrev Kept : Response × Directory → Type 0
Kept r = is_founded r.0 ≡ true → Owned r.1

record Opened (slug : Text) (d e : Directory) (w : WorkspaceRow) : Type 0 where
  workspaces : e.workspaces ≡ d.workspaces ++ w ∷ []
  same_members : e.members ≡ d.members
  next : e.next_id ≡ d.next_id + 1

opened :
    (slug : Text) (d e : Directory) (w : WorkspaceRow)
    → create_workspace slug d ≡ ok (w, e)
    → Opened slug d e w
unfolding create_workspace
opened slug d e w h = ground arith

has_workspace-append :
    (v : ℕ) (ws : List WorkspaceRow) (w : WorkspaceRow)
    → has_workspace v (ws ++ w ∷ []) ≡ (has_workspace v ws || (w.id == v))
has_workspace-append v [] w = ground arith
has_workspace-append v (x ∷ xs) w = ground (arith, has_workspace-append v xs w)

no_user :
    (w : ℕ) (role : Role) (d e : Directory) (m : MemberRow)
    → create_member w none role d ≡ ok (m, e)
    → ⊥
unfolding create_member insert_member
no_user w role d e m h = ground arith

founded-Owned :
    (slug : Text) (d e e' : Directory) (w : WorkspaceRow) (u : ℕ) (m : MemberRow)
    → Owned d
    → Opened slug d e w
    → create_member w.id (some u) Role.owner e ≡ ok (m, e')
    → Owned e'
founded-Owned slug d e e' w u m o b h =
    let (members, workspaces, next) = inserted w.id u Role.owner e e' m h in
    let x = new_member e.next_id w.id u Role.owner in
    Owned-parts e' (d.workspaces ++ w ∷ []) (d.members ++ x ∷ []) (workspaces ∙ b.workspaces)
      (members ∙ ap (λ xs. xs ++ x ∷ []) b.same_members)
      (λ v k. elim (Bool-cases (has_workspace v d.workspaces)) [
        | inl old ↦ omega (arith, o.owned v old, owners_in-append v x d.members)
        | inr new ↦
            let same : (w.id == v) ≡ true = ground (arith, has_workspace-append v d.workspaces w) in
            ground (arith, same, owners_in-append v x d.members)
      ])
      (distinct-append x d.members o.distinct_ids
        (below-absent d.next_id e.next_id d.members o.given (omega (arith, b.next))))
      (below-append d.next_id e'.next_id x d.members o.given (omega (arith, b.next)) (omega arith))

creation_failed_lem : (e : Failure) → is_founded (creation_failed e) ≡ false
creation_failed_lem unique_violation = refl
creation_failed_lem no_rows = refl
creation_failed_lem Failure.missing_reference = refl
creation_failed_lem Failure.refused = refl

founded-Kept :
    (slug : Text) (user : Option ℕ) (d : Directory) → Owned d → Kept (founded slug user d)
founded-Kept slug none d o =
    attempt_both Kept (create_workspace slug) creation_failed _ d
      (λ e h k. absurd (ground (arith, creation_failed_lem e)))
      (λ w e h.
        attempt_both Kept (create_member w.id none Role.owner) (λ f. server_error) _ e
          (λ f g k. absurd (ground arith)) (λ m e' g k. absurd (no_user w.id Role.owner e e' m g)))
founded-Kept slug (some u) d o =
    attempt_both Kept (create_workspace slug) creation_failed _ d
      (λ e h k. absurd (ground (arith, creation_failed_lem e)))
      (λ w e h.
        attempt_both Kept (create_member w.id (some u) Role.owner) (λ f. server_error) _ e
          (λ f g k. absurd (ground arith))
          (λ m e' g k. founded-Owned slug d e e' w u m o (opened slug d e w h) g))

begun :
    (test : Bool) (d : Directory) (r : Response × Directory)
    → Owned d
    → Owned r.1
    → Owned (if◌then◌else◌ {A = Response × Directory} test (server_error, d) r).1
begun true d r o p = o
begun false d r o p = p

committed-Owned :
    (d : Directory) (r : Response × Directory) → Owned d → Kept r → Owned (committed d r).1
committed-Owned d (created_workspace id, e) o k =
    begun (e.fails Query.commit) d (created_workspace id, e) o (k refl)
committed-Owned d (bad_request, e) o k = o
committed-Owned d (unauthorized, e) o k = o
committed-Owned d (forbidden, e) o k = o
committed-Owned d (not_found, e) o k = o
committed-Owned d (conflict, e) o k = o
committed-Owned d (server_error, e) o k = o
committed-Owned d (no_content, e) o k = o
committed-Owned d (created m, e) o k = o
committed-Owned d (updated m, e) o k = o

in_transaction-Owned :
    (m : Handler) (d : Directory) → Owned d → Kept (m d) → Owned (in_transaction m d).1
in_transaction-Owned m d o k =
    begun (d.fails Query.begin) d (committed d (m d)) o (committed-Owned d (m d) o k)

named_workspace-Owned :
    (user : Param) (body : Option (Text × Text)) (d : Directory)
    → Owned d
    → Owned (named_workspace user body d).1
named_workspace-Owned user none d o = o
named_workspace-Owned user (some (name, slug)) d o =
    unless_rule Owned (is_empty (trim_space name) || is_empty (to_lower (trim_space slug)))
      (in_transaction (founded (to_lower (trim_space slug)) (parse_uuid user))) bad_request d o
      (λ _.
        in_transaction-Owned (founded (to_lower (trim_space slug)) (parse_uuid user)) d o
          (founded-Kept (to_lower (trim_space slug)) (parse_uuid user) d o))

pub create_workspace_request-Owned :
    (disabled : Bool) (user : Param) (body : Option (Text × Text)) (d : Directory)
    → Owned d
    → Owned (create_workspace_request disabled user body d).1
unfolding create_workspace_request
create_workspace_request-Owned disabled user body d o =
    unless_rule Owned (is_absent user) _ unauthorized d o (λ _.
      unless_rule Owned disabled (named_workspace user body) forbidden d o
        (λ _. named_workspace-Owned user body d o))
