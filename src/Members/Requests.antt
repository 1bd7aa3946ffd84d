-- ===== src/Members/Requests.antt =====
-- The routes of /api/workspaces (server/cmd/server/router.go) that change members: the guard, then the
-- handler.
use agentra.Base.{ℕ, Bool, false, List, [], ◌∷◌, Option, Text}
use agentra.Members.Tables.{Role, Directory, Query}
use agentra.Members.Guards.{Handler, Param, absent, malformed, named, parse_uuid, build_middleware}
use agentra.Members.Handlers.{
  create_member_request, update_member, delete_member_request, leave_workspace,
  delete_workspace_request, create_workspace_request,
}

pub data Request : Type 0 where
  founds : Bool → Param → Option (Text × Text) → Request
  invites : Param → Param → Option (Text × Text) → Request
  promotes : Param → Param → Option ℕ → Option Text → Request
  removes : Param → Param → Option ℕ → Request
  leaves : Param → Param → Request
  dissolves : Param → Param → Request

abbrev admins : List Role
admins = Role.owner ∷ Role.admin ∷ []

abbrev owners : List Role
owners = Role.owner ∷ []

-- Past the guard, the workspace of the path is the one that the member belongs to.
abbrev pub is_canonical : Param → Bool
is_canonical absent = false
is_canonical malformed = false
is_canonical (named id canonical) = canonical

unfoldable pub serve : Request → Handler
serve (founds disabled user body) = create_workspace_request disabled user body
serve (invites workspace user body) =
    build_middleware admins workspace user (λ m. create_member_request m m.workspace_id body)
serve (promotes workspace user target body) =
    build_middleware admins workspace user
      (λ m. update_member m m.workspace_id (is_canonical workspace) target body)
serve (removes workspace user target) =
    build_middleware admins workspace user
      (λ m. delete_member_request m m.workspace_id (is_canonical workspace) target)
serve (leaves workspace user) = build_middleware [] workspace user leave_workspace
serve (dissolves workspace user) =
    build_middleware owners workspace user (λ m. delete_workspace_request (parse_uuid workspace))

-- Requests one after another, each with the statements that the database refuses meanwhile.
unfoldable pub after : List ((Query → Bool) × Request) → Directory → Directory
after [] d = d
after ((fails, q) ∷ rest) d = after rest (serve q (record d { fails = fails })).1
