-- ===== src/Members/Privileges.antt =====
-- Who may change what among the members of a workspace.
use agentra.Base.{
  ℕ, ◌≡◌, ◌∙◌, refl, sym, ap, subst, Bool, true, false, not, ◌||◌, List, [], ◌∷◌, ◌++◌, some, arith,
  ◌==◌, ==_iff, is_empty, keep,
}
use agentra.Members.Tables.{Role, MemberRow, Directory}
use agentra.Members.Directory.{new_member, set_roles, without_member}
use agentra.Members.Guards.{Param, absent, parse_uuid, role_allowed}
use agentra.Members.Handlers.{leave_workspace, delete_workspace_request}
use agentra.Members.Requests.{
  Request, founds, invites, promotes, removes, leaves, dissolves, serve, is_canonical,
}
use agentra.Members.Rules.{In, build_middleware_rule}
use agentra.Members.Changes.{is_owner, Change, keeps, joins, ranks, drops, ends}
use agentra.Members.Joining.{create_member_request_Change}
use agentra.Members.Altering.{
  update_member_Change, delete_member_request_Change, leave_workspace_Change,
  delete_workspace_request_Change,
}
use agentra.Members.Identifiers.{distinct, at_row, without-head, without-tail, set-head, set-tail}

abbrev pub is_founding : Request → Bool
is_founding (founds disabled user body) = true
is_founding _ = false

abbrev pub workspace_of : Request → Param
workspace_of (founds disabled user body) = absent
workspace_of (invites workspace user body) = workspace
workspace_of (promotes workspace user target body) = workspace
workspace_of (removes workspace user target) = workspace
workspace_of (leaves workspace user) = workspace
workspace_of (dissolves workspace user) = workspace

abbrev pub user_of : Request → Param
user_of (founds disabled user body) = user
user_of (invites workspace user body) = user
user_of (promotes workspace user target body) = user
user_of (removes workspace user target) = user
user_of (leaves workspace user) = user
user_of (dissolves workspace user) = user

-- The member of the workspace that a request comes from.
pub record Comes (q : Request) (d : Directory) (m : MemberRow) : Type 0 where
  pub is_member : In m d.members
  pub of_workspace : parse_uuid (workspace_of q) ≡ some m.workspace_id
  pub of_user : parse_uuid (user_of q) ≡ some m.user_id

owner_of :
    (m : MemberRow)
    → (is_empty (Role.owner ∷ []) || role_allowed m.role (Role.owner ∷ [])) ≡ true
    → is_owner m ≡ true
unfolding role_allowed
owner_of m h = ground arith

-- A request that founds no workspace changes nothing, or what its member may change.
pub serve_rule :
    (P : Directory → Type 0) (q : Request) (d : Directory)
    → is_founding q ≡ false
    → P d
    → ((m : MemberRow) (d' : Directory) → Comes q d m → Change m d d' → P d')
    → P (serve q d).1
unfolding serve
serve_rule P (founds disabled user body) d f p k = absurd (cc)
serve_rule P (invites workspace user body) d f p k =
    build_middleware_rule P _ workspace user _ d p (λ m b.
      k m _ (record { is_member = b.is_member; of_workspace = b.of_workspace; of_user = b.of_user })
        (create_member_request_Change m body d))
serve_rule P (promotes workspace user target body) d f p k =
    build_middleware_rule P _ workspace user _ d p (λ m b.
      k m _ (record { is_member = b.is_member; of_workspace = b.of_workspace; of_user = b.of_user })
        (update_member_Change m (is_canonical workspace) target body d))
serve_rule P (removes workspace user target) d f p k =
    build_middleware_rule P _ workspace user _ d p (λ m b.
      k m _ (record { is_member = b.is_member; of_workspace = b.of_workspace; of_user = b.of_user })
        (delete_member_request_Change m (is_canonical workspace) target d))
serve_rule P (leaves workspace user) d f p k =
    build_middleware_rule P [] workspace user leave_workspace d p (λ m b.
      k m _ (record { is_member = b.is_member; of_workspace = b.of_workspace; of_user = b.of_user })
        (leave_workspace_Change m d b.is_member))
serve_rule P (dissolves workspace user) d f p k =
    build_middleware_rule P (Role.owner ∷ []) workspace user _ d p (λ m b.
      k m _ (record { is_member = b.is_member; of_workspace = b.of_workspace; of_user = b.of_user })
        (subst (λ x. Change m d (delete_workspace_request x d).1) (sym b.of_workspace)
          (delete_workspace_request_Change m d (owner_of m b.in_role))))

-- The rows of owners, and the rows of the other workspaces.
abbrev pub owner_rows : List MemberRow → List MemberRow
owner_rows ms = keep is_owner ms

abbrev pub elsewhere : ℕ → List MemberRow → List MemberRow
elsewhere w ms = keep (λ m. not (m.workspace_id == w)) ms

keep-append :
    (p : MemberRow → Bool) (m : MemberRow) (ms : List MemberRow)
    → p m ≡ false
    → keep p (ms ++ m ∷ []) ≡ keep p ms
keep-append p m [] h = ground arith
keep-append p m (x ∷ xs) h = ground (arith, keep-append p m xs)

-- A row that a test leaves out can be removed, or given another role, out of its sight.
keep-without :
    (p : MemberRow → Bool) (t : MemberRow) (ms : List MemberRow)
    → p t ≡ false
    → distinct ms ≡ true
    → In t ms
    → keep p (without_member t.id ms) ≡ keep p ms
keep-without p t ms h u i =
    at_row t (λ xs. keep p (without_member t.id xs) ≡ keep p xs)
      (λ xs a. rw (without-head t xs a) (ground arith))
      (λ m xs n ih. rw (without-tail t.id m xs n) (ground arith)) ms u i

keep-set_roles :
    (p : MemberRow → Bool) (t : MemberRow) (role : Role) (ms : List MemberRow)
    → p t ≡ false
    → p (record t { role = role }) ≡ false
    → distinct ms ≡ true
    → In t ms
    → keep p (set_roles t.id role ms) ≡ keep p ms
keep-set_roles p t role ms h k u i =
    at_row t (λ xs. keep p (set_roles t.id role xs) ≡ keep p xs)
      (λ xs a. rw (set-head role t xs a) (ground arith))
      (λ m xs n ih. rw (set-tail t.id role m xs n) (ground arith)) ms u i

keep-keep : (w : ℕ) (ms : List MemberRow) → elsewhere w (elsewhere w ms) ≡ elsewhere w ms
keep-keep w [] = refl
keep-keep w (m ∷ ms) = ground (arith, keep-keep w ms)

pub Change-owner_rows :
    (m : MemberRow) (d d' : Directory)
    → Change m d d'
    → is_owner m ≡ false
    → distinct d.members ≡ true
    → owner_rows d'.members ≡ owner_rows d.members
Change-owner_rows m d _ (keeps d' e f n) o u = ap owner_rows e
Change-owner_rows m d _ (joins n user role d' h l f e allowed) o u =
    ap owner_rows e
    ∙ keep-append is_owner (new_member n m.workspace_id user role) d.members (ground arith)
Change-owner_rows m d _ (ranks t role d' i same f n e allowed spared) o u =
    ap owner_rows e ∙ keep-set_roles is_owner t role d.members (ground arith) (ground arith) u i
Change-owner_rows m d _ (drops t d' i same f n e allowed spared) o u =
    ap owner_rows e ∙ keep-without is_owner t d.members (ground arith) u i
Change-owner_rows m d _ (ends d' f e n owner) o u = absurd (ground arith)

pub Change-elsewhere :
    (m : MemberRow) (d d' : Directory)
    → Change m d d'
    → distinct d.members ≡ true
    → elsewhere m.workspace_id d'.members ≡ elsewhere m.workspace_id d.members
Change-elsewhere m d _ (keeps d' e f n) u = ap (elsewhere m.workspace_id) e
Change-elsewhere m d _ (joins n user role d' h l f e allowed) u =
    ap (elsewhere m.workspace_id) e
    ∙ keep-append (λ x. not (x.workspace_id == m.workspace_id))
        (new_member n m.workspace_id user role) d.members
        (ground (arith, ==_iff m.workspace_id m.workspace_id))
Change-elsewhere m d _ (ranks t role d' i same f n e allowed spared) u =
    ap (elsewhere m.workspace_id) e
    ∙ keep-set_roles (λ x. not (x.workspace_id == m.workspace_id)) t role d.members
        (ground (arith, ==_iff t.workspace_id m.workspace_id))
        (ground (arith, ==_iff t.workspace_id m.workspace_id)) u i
Change-elsewhere m d _ (drops t d' i same f n e allowed spared) u =
    ap (elsewhere m.workspace_id) e
    ∙ keep-without (λ x. not (x.workspace_id == m.workspace_id)) t d.members
        (ground (arith, ==_iff t.workspace_id m.workspace_id)) u i
Change-elsewhere m d _ (ends d' f e n owner) u =
    ap (elsewhere m.workspace_id) e ∙ keep-keep m.workspace_id d.members
