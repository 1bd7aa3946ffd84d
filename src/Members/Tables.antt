-- ===== src/Members/Tables.antt =====
-- The rows of users, workspaces and members (server/pkg/db/generated/models.go), and what a statement
-- on them answers. Rows stand in the order of their creation.
use agentra.Base.{ℕ, Bool, true, false, List, Text}

pub data Role : Type 0 where
  owner admin member : Role

abbrev pub role_eq : Role → Role → Bool
role_eq Role.owner Role.owner = true
role_eq Role.admin Role.admin = true
role_eq Role.member Role.member = true
role_eq _ _ = false

pub record MemberRow : Type 0 where
  pub id : ℕ
  pub workspace_id : ℕ
  pub user_id : ℕ
  pub role : Role

pub record UserRow : Type 0 where
  pub id : ℕ
  pub email : Text

pub record WorkspaceRow : Type 0 where
  pub id : ℕ
  pub slug : Text

pub data Query : Type 0 where
  get_member get_member_by_user list_members create_member update_member_role delete_member get_user
        get_user_by_email create_user create_workspace delete_workspace begin commit :
      Query

pub record Directory : Type 0 where
  pub users : List UserRow
  pub workspaces : List WorkspaceRow
  pub members : List MemberRow
  pub next_id : ℕ
  pub fails : Query → Bool

-- `refused` is any failure but the three that PostgreSQL and pgx name.
pub data Failure : Type 0 where
  no_rows unique_violation missing_reference refused : Failure

pub data Answer (A : Type 0) : Type 0 where
  ok : A → Answer A
  err : Failure → Answer A

abbrev pub Statement : Type 0 → Type 0
Statement A = Directory → Answer (A × Directory)

abbrev pub query : {A : Type 0} → Query → Statement A → Statement A
query q m d = elim (d.fails q) [ true ↦ err refused | false ↦ m d ]
