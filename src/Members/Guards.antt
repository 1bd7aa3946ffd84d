-- ===== src/Members/Guards.antt =====
-- The guard of the routes (server/internal/middleware/workspace.go), and the two functions of
-- server/internal/handlerutil/member.go.
use agentra.Base.{
  ℕ, ◌+◌, Bool, true, false, ◌||◌, List, [], ◌∷◌, Option, none, some, if◌then◌else◌, is_empty,
}
use agentra.Members.Tables.{Role, MemberRow, Directory, Statement, Failure, ok, err, role_eq}
use agentra.Members.Directory.{get_member_by_user_and_workspace}

-- Answers of the handlers. The bodies of those that carry none are left out.
pub data Response : Type 0 where
  bad_request unauthorized forbidden not_found conflict server_error no_content : Response
  created updated : MemberRow → Response
  created_workspace : ℕ → Response

abbrev pub Handler : Type 0
Handler = Directory → Response × Directory

abbrev pub respond : Response → Handler
respond r d = (r, d)

-- A statement that is committed by itself; what it fails with becomes a response.
abbrev pub attempt : {A : Type 0} → Statement A → (Failure → Response) → (A → Handler) → Handler
attempt m failed next d = elim (m d) [ ok (a, d') ↦ next a d' | err e ↦ (failed e, d) ]

-- A text that is to be a UUID: empty, no UUID, or an identifier, spelled in the canonical way or not.
pub data Param : Type 0 where
  absent malformed : Param
  named : ℕ → Bool → Param

abbrev pub is_absent : Param → Bool
is_absent absent = true
is_absent malformed = false
is_absent (named id canonical) = false

abbrev pub parse_uuid : Param → Option ℕ
parse_uuid absent = none
parse_uuid malformed = none
parse_uuid (named id canonical) = some id

unfoldable pub role_allowed : Role → List Role → Bool
role_allowed role [] = false
role_allowed role (r ∷ rs) = role_eq role r || role_allowed role rs

unfoldable pub count_owners : List MemberRow → ℕ
count_owners [] = 0
count_owners (m ∷ ms) =
    let rest = count_owners ms in if role_eq m.role Role.owner then rest + 1 else rest

-- buildMiddleware: the workspace of the path, the user of the header X-User-ID, and the roles.
unfoldable pub build_middleware : List Role → Param → Param → (MemberRow → Handler) → Handler
build_middleware roles workspace user next =
    if is_absent workspace
    then respond bad_request
    else if is_absent user
    then respond unauthorized
    else (attempt (get_member_by_user_and_workspace (parse_uuid user) (parse_uuid workspace))
        (λ e. not_found)
        (λ m. if is_empty roles || role_allowed m.role roles then next m else respond forbidden))
