-- ===== src/Members/Handlers.antt =====
-- Handlers of server/internal/handler/workspace.go: CreateWorkspace, CreateMember, UpdateMember,
-- DeleteMember, LeaveWorkspace and DeleteWorkspace. A body is `none` when it is not the JSON that is
-- asked for. Published events are left out.
use agentra.Base.{
  ℕ, Bool, not, ◌&&◌, ◌||◌, Option, none, some, Text, if◌then◌else◌, ◌==◌, leb, is_empty, text_eq,
  bytes, to_lower, trim_space,
}
use agentra.Members.Tables.{
  Role, MemberRow, UserRow, Directory, Query, Failure, no_rows, unique_violation, ok, err, role_eq,
}
use agentra.Members.Directory.{
  get_member, list_members, create_member, update_member_role, delete_member, get_user,
  get_user_by_email, create_user, create_workspace, delete_workspace,
}
use agentra.Members.Guards.{
  Response, bad_request, unauthorized, forbidden, not_found, conflict, server_error, no_content,
  created, updated, created_workspace, Handler, respond, attempt, Param, is_absent, parse_uuid,
  count_owners,
}

abbrev role_named : Text → Option Role
role_named s =
    if text_eq s (bytes "owner")
    then some Role.owner
    else if text_eq s (bytes "admin")
    then some Role.admin
    else if text_eq s (bytes "member")
    then some Role.member
    else none

unfoldable pub normalize_member_role : Text → Option Role
normalize_member_role role =
    if is_empty role then some Role.member else role_named (trim_space role)

-- A change that takes an owner away is made only while another owner is left.
unfoldable pub unless_last : Bool → ℕ → Handler → Handler
unless_last takes workspace next =
    if takes
    then (attempt (list_members workspace) (λ e. server_error)
        (λ ms. if leb (count_owners ms) 1 then respond bad_request else next))
    else next

abbrev join_failed : Failure → Response
join_failed unique_violation = conflict
join_failed _ = server_error

-- CreateMember, from the call of the query CreateMember on.
unfoldable pub join : ℕ → Role → UserRow → Handler
join workspace role u =
    attempt (create_member workspace (some u.id) role) join_failed (λ m. respond (created m))

-- A user that is not found by e-mail is created.
unfoldable pub load_user : Text → (UserRow → Handler) → Handler
load_user email next d = elim (get_user_by_email email d) [
  | ok (u, d') ↦ next u d'
  | err e ↦ elim e [
    | no_rows ↦ attempt (create_user email) (λ e. server_error) next d
    | other ↦ (server_error, d)
  ]
]

abbrev pub invite : MemberRow → ℕ → Text → Option Role → Handler
invite requester workspace email none = respond bad_request
invite requester workspace email (some role) =
    if role_eq role Role.owner && not (role_eq requester.role Role.owner)
    then respond forbidden
    else load_user email (join workspace role)

-- The body has an e-mail address and a role.
unfoldable pub create_member_request : MemberRow → ℕ → Option (Text × Text) → Handler
create_member_request requester workspace none = respond bad_request
create_member_request requester workspace (some (email, role)) =
    if is_empty (to_lower (trim_space email))
    then respond bad_request
    else invite requester workspace (to_lower (trim_space email)) (normalize_member_role role)

-- GetMember, and the comparison of its workspace with the one of the path, letter by letter.
unfoldable pub with_target : ℕ → Bool → Option ℕ → (MemberRow → Handler) → Handler
with_target workspace canonical target next =
    attempt (get_member target) (λ e. not_found)
      (λ m. if canonical && (m.workspace_id == workspace) then next m else respond not_found)

unfoldable pub write_role : ℕ → Role → Handler
write_role id role =
    attempt (update_member_role id role) (λ e. server_error)
      (λ m. attempt (get_user m.user_id) (λ e. server_error) (λ u. respond (updated m)))

unfoldable pub change_role : MemberRow → MemberRow → Role → Handler
change_role requester target role =
    if (role_eq target.role Role.owner || role_eq role Role.owner)
      && not (role_eq requester.role Role.owner)
    then respond forbidden
    else (unless_last (role_eq target.role Role.owner && not (role_eq role Role.owner))
        target.workspace_id (write_role target.id role))

abbrev pub asked_role : MemberRow → MemberRow → Option Role → Handler
asked_role requester target none = respond bad_request
asked_role requester target (some role) = change_role requester target role

abbrev pub new_role : MemberRow → MemberRow → Option Text → Handler
new_role requester target none = respond bad_request
new_role requester target (some role) =
    if is_empty (trim_space role)
    then respond bad_request
    else asked_role requester target (normalize_member_role role)

unfoldable pub update_member : MemberRow → ℕ → Bool → Option ℕ → Option Text → Handler
update_member requester workspace canonical target body =
    with_target workspace canonical target (λ m. new_role requester m body)

unfoldable pub remove_row : ℕ → Handler
remove_row id = attempt (delete_member id) (λ e. server_error) (λ _. respond no_content)

unfoldable pub remove_target : MemberRow → MemberRow → Handler
remove_target requester target =
    if role_eq target.role Role.owner && not (role_eq requester.role Role.owner)
    then respond forbidden
    else (unless_last (role_eq target.role Role.owner) target.workspace_id (remove_row target.id))

unfoldable pub delete_member_request : MemberRow → ℕ → Bool → Option ℕ → Handler
delete_member_request requester workspace canonical target =
    with_target workspace canonical target (remove_target requester)

unfoldable pub leave_workspace : MemberRow → Handler
leave_workspace m = unless_last (role_eq m.role Role.owner) m.workspace_id (remove_row m.id)

unfoldable pub delete_workspace_request : Option ℕ → Handler
delete_workspace_request id =
    attempt (delete_workspace id) (λ e. server_error) (λ _. respond no_content)

abbrev pub creation_failed : Failure → Response
creation_failed unique_violation = conflict
creation_failed _ = server_error

-- Inside of the transaction: the workspace, and the user as its owner.
abbrev pub founded : Text → Option ℕ → Handler
founded slug user = attempt (create_workspace slug) creation_failed (λ w.
    attempt (create_member w.id user Role.owner) (λ e. server_error)
      (λ m. respond (created_workspace w.id)))

-- Begin and Commit round a handler whose success is `created_workspace`; all else is rolled back.
abbrev pub committed : Directory → Response × Directory → Response × Directory
committed d (created_workspace id, d') =
    if d'.fails Query.commit then (server_error, d) else (created_workspace id, d')
committed d (other, d') = (other, d)

abbrev pub in_transaction : Handler → Handler
in_transaction m d = if d.fails Query.begin then (server_error, d) else committed d (m d)

abbrev pub named_workspace : Param → Option (Text × Text) → Handler
named_workspace user none = respond bad_request
named_workspace user (some (name, slug)) =
    if is_empty (trim_space name) || is_empty (to_lower (trim_space slug))
    then respond bad_request
    else in_transaction (founded (to_lower (trim_space slug)) (parse_uuid user))

-- The body has a name and a slug.
unfoldable pub create_workspace_request : Bool → Param → Option (Text × Text) → Handler
create_workspace_request disabled user body =
    if is_absent user
    then respond unauthorized
    else if disabled
    then respond forbidden
    else named_workspace user body
