-- ===== src/Members/Directory.antt =====
-- Statements on users, workspaces and members (server/pkg/db/generated/member.sql.go, user.sql.go and
-- workspace.sql.go).
use agentra.Base.{
  ℕ, ◌+◌, Bool, not, ◌&&◌, List, [], ◌∷◌, ◌++◌, Option, none, some, Text, if◌then◌else◌, ◌==◌, keep,
  some_of, text_eq,
}
use agentra.Members.Tables.{
  Role, MemberRow, UserRow, WorkspaceRow, Query, Directory, no_rows, unique_violation,
  missing_reference, refused, Answer, ok, err, Statement, query,
}

-- SELECT … :one, and the rows that UPDATE … RETURNING gives.
abbrev pub one_row : {A : Type 0} → Option A → Directory → Answer (A × Directory)
one_row none d = err no_rows
one_row (some a) d = ok (a, d)

abbrev pub find : {A : Type 0} → (A → Bool) → List A → Option A
find p [] = none
find p (x ∷ xs) = if p x then some x else find p xs

-- An identifier that is NULL matches no row.
unfoldable pub get_member : Option ℕ → Statement MemberRow
get_member none d = query Query.get_member (λ d. err no_rows) d
get_member (some id) d =
    query Query.get_member (one_row (find (λ (m : MemberRow). m.id == id) d.members)) d

abbrev pub is_of : ℕ → ℕ → MemberRow → Bool
is_of user workspace m = (m.user_id == user) && (m.workspace_id == workspace)

abbrev pub by_user : Option ℕ → Option ℕ → List MemberRow → Option MemberRow
by_user none w ms = none
by_user (some u) none ms = none
by_user (some u) (some w) ms = find (is_of u w) ms

unfoldable pub get_member_by_user_and_workspace : Option ℕ → Option ℕ → Statement MemberRow
get_member_by_user_and_workspace user workspace d =
    query Query.get_member_by_user (one_row (by_user user workspace d.members)) d

abbrev pub members_of : ℕ → List MemberRow → List MemberRow
members_of workspace ms = keep (λ m. m.workspace_id == workspace) ms

unfoldable pub list_members : ℕ → Statement (List MemberRow)
list_members workspace d = query Query.list_members (λ d. ok (members_of workspace d.members, d)) d

abbrev has_user : ℕ → List UserRow → Bool
has_user id us = some_of (λ u. u.id == id) us

abbrev pub has_workspace : ℕ → List WorkspaceRow → Bool
has_workspace id ws = some_of (λ w. w.id == id) ws

abbrev pub new_member : ℕ → ℕ → ℕ → Role → MemberRow
new_member id workspace user role = record {
  id = id;
  workspace_id = workspace;
  user_id = user;
  role = role;
}

-- The columns refer to a workspace and a user, which is not NULL; UNIQUE (workspace_id, user_id).
unfoldable pub insert_member : ℕ → Option ℕ → Role → Statement MemberRow
insert_member workspace none role d = err refused
insert_member workspace (some user) role d =
    if not (has_workspace workspace d.workspaces && has_user user d.users)
    then err missing_reference
    else if some_of (is_of user workspace) d.members
    then err unique_violation
    else ok (
      new_member d.next_id workspace user role,
      record d {
        members = d.members ++ new_member d.next_id workspace user role ∷ [];
        next_id = d.next_id + 1;
      },
    )

unfoldable pub create_member : ℕ → Option ℕ → Role → Statement MemberRow
unfolding insert_member
create_member workspace user role d =
    query Query.create_member (insert_member workspace user role) d

abbrev with_role : ℕ → Role → MemberRow → MemberRow
with_role id role m = if m.id == id then record m { role = role } else m

unfoldable pub set_roles : ℕ → Role → List MemberRow → List MemberRow
set_roles id role [] = []
set_roles id role (m ∷ ms) = with_role id role m ∷ set_roles id role ms

abbrev changed : ℕ → Role → Option MemberRow → Statement MemberRow
unfolding set_roles
changed id role none d = err no_rows
changed id role (some m) d =
    ok (record m { role = role }, record d { members = set_roles id role d.members })

unfoldable pub update_member_role : ℕ → Role → Statement MemberRow
unfolding changed
update_member_role id role d =
    query Query.update_member_role (changed id role (find (λ m. m.id == id) d.members)) d

unfoldable pub without_member : ℕ → List MemberRow → List MemberRow
without_member id ms = keep (λ m. not (m.id == id)) ms

unfoldable pub delete_member : ℕ → Statement (Unit {0})
delete_member id d =
    query Query.delete_member (λ d. ok (tt, record d { members = without_member id d.members })) d

unfoldable pub get_user : ℕ → Statement UserRow
get_user id d = query Query.get_user (one_row (find (λ u. u.id == id) d.users)) d

unfoldable pub get_user_by_email : Text → Statement UserRow
get_user_by_email email d =
    query Query.get_user_by_email (one_row (find (λ u. text_eq u.email email) d.users)) d

abbrev inserted_user : Text → Directory → Answer (UserRow × Directory)
inserted_user email d =
    let row : UserRow = record { id = d.next_id; email = email } in
    if some_of (λ (u : UserRow). text_eq u.email email) d.users
    then err unique_violation
    else ok (row, record d { users = d.users ++ row ∷ []; next_id = d.next_id + 1 })

unfoldable pub create_user : Text → Statement UserRow
create_user email d = query Query.create_user (inserted_user email) d

abbrev inserted_workspace : Text → Directory → Answer (WorkspaceRow × Directory)
inserted_workspace slug d =
    let row : WorkspaceRow = record { id = d.next_id; slug = slug } in
    if some_of (λ (w : WorkspaceRow). text_eq w.slug slug) d.workspaces
    then err unique_violation
    else ok (row, record d { workspaces = d.workspaces ++ row ∷ []; next_id = d.next_id + 1 })

unfoldable pub create_workspace : Text → Statement WorkspaceRow
create_workspace slug d = query Query.create_workspace (inserted_workspace slug) d

-- The members of a workspace are deleted with it (ON DELETE CASCADE).
unfoldable pub without_workspace : Option ℕ → Directory → Directory
without_workspace none d = d
without_workspace (some id) d = record d {
  workspaces = keep (λ w. not (w.id == id)) d.workspaces;
  members = keep (λ m. not (m.workspace_id == id)) d.members;
}

unfoldable pub delete_workspace : Option ℕ → Statement (Unit {0})
unfolding without_workspace
delete_workspace id d = query Query.delete_workspace (λ d. ok (tt, without_workspace id d)) d
