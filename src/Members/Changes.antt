-- ===== src/Members/Changes.antt =====
-- What a member may do to the directory.
use agentra.Base.{
  ℕ, ◌≤◌, ◌<◌, ◌≡◌, refl, Bool, true, false, not, ◌&&◌, ◌||◌, [], ◌∷◌, ◌++◌, arith, ◌==◌, keep,
}
use agentra.Members.Tables.{Role, MemberRow, WorkspaceRow, Directory, role_eq}
use agentra.Members.Directory.{new_member, members_of, set_roles, without_member}
use agentra.Members.Guards.{count_owners}
use agentra.Members.Rules.{In}

abbrev pub is_owner : MemberRow → Bool
is_owner m = role_eq m.role Role.owner

-- What a member `m` may have done, with the conditions under which it may.
pub data Change (m : MemberRow) (d : Directory) : Directory → Type 0 where
  keeps :
      (d' : Directory)
      → d'.members ≡ d.members
      → d'.workspaces ≡ d.workspaces
      → d.next_id ≤ d'.next_id
      → Change m d d'
  joins :
      (n user : ℕ) (role : Role) (d' : Directory)
      → d.next_id ≤ n
      → n < d'.next_id
      → d'.workspaces ≡ d.workspaces
      → d'.members ≡ d.members ++ new_member n m.workspace_id user role ∷ []
      → (role_eq role Role.owner && not (is_owner m)) ≡ false
      → Change m d d'
  ranks :
      (t : MemberRow) (role : Role) (d' : Directory)
      → In t d.members
      → t.workspace_id ≡ m.workspace_id
      → d'.workspaces ≡ d.workspaces
      → d'.next_id ≡ d.next_id
      → d'.members ≡ set_roles t.id role d.members
      → ((is_owner t || role_eq role Role.owner) && not (is_owner m)) ≡ false
      → ((is_owner t && not (role_eq role Role.owner)) ≡ true
          → 2 ≤ count_owners (members_of t.workspace_id d.members))
      → Change m d d'
  drops :
      (t : MemberRow) (d' : Directory)
      → In t d.members
      → t.workspace_id ≡ m.workspace_id
      → d'.workspaces ≡ d.workspaces
      → d'.next_id ≡ d.next_id
      → d'.members ≡ without_member t.id d.members
      → (is_owner t && not (is_owner m)) ≡ false
      → (is_owner t ≡ true → 2 ≤ count_owners (members_of t.workspace_id d.members))
      → Change m d d'
  ends :
      (d' : Directory)
      → d'.workspaces ≡ keep (λ (w : WorkspaceRow). not (w.id == m.workspace_id)) d.workspaces
      → d'.members ≡ keep (λ (x : MemberRow). not (x.workspace_id == m.workspace_id)) d.members
      → d'.next_id ≡ d.next_id
      → is_owner m ≡ true
      → Change m d d'

pub same : (m : MemberRow) (d : Directory) → Change m d d
same m d = keeps d refl refl (omega arith)
