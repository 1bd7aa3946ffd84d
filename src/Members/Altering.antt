-- ===== src/Members/Altering.antt =====
-- UpdateMember, DeleteMember, LeaveWorkspace and DeleteWorkspace do what a member may do
-- (server/internal/handler/workspace.go).
use agentra.Base.{
  ℕ, ◌≡◌, refl, sym, Bool, true, false, not, ◌&&◌, ◌||◌, Option, none, some, Text, arith, ◌==◌,
  is_empty, trim_space, Option-cases, inl, inr, subst,
}
use agentra.Members.Tables.{Role, MemberRow, UserRow, Query, Directory, ok, role_eq}
use agentra.Members.Directory.{
  update_member_role, set_roles, find, one_row, delete_member, without_member, get_user,
  delete_workspace, without_workspace,
}
use agentra.Members.Guards.{bad_request, forbidden, server_error, no_content, updated, respond}
use agentra.Members.Handlers.{
  normalize_member_role, asked_role, new_role, unless_last, write_role, change_role, update_member,
  remove_row, remove_target, delete_member_request, leave_workspace, delete_workspace_request,
}
use agentra.Members.Rules.{
  In, queried, one_row_lem, attempt_rule, unless_rule, with_target_rule, unless_last_rule,
}
use agentra.Members.Changes.{is_owner, Change, same, ranks, drops, ends}

record Ranked (id : ℕ) (role : Role) (d e : Directory) : Type 0 where
  members : e.members ≡ set_roles id role d.members
  same_workspaces : e.workspaces ≡ d.workspaces
  same_next : e.next_id ≡ d.next_id

ranked :
    (id : ℕ) (role : Role) (d e : Directory) (r : MemberRow)
    → update_member_role id role d ≡ ok (r, e)
    → Ranked id role d e
unfolding update_member_role
ranked id role d e r h = elim (Option-cases (find (λ (x : MemberRow). x.id == id) d.members)) [
  | inl n ↦ absurd (ground (arith, n, h))
  | inr (x, f) ↦ ground (arith, f, h)
]

get_user_keeps : (id : ℕ) (d e : Directory) (u : UserRow) → get_user id d ≡ ok (u, e) → e ≡ d
unfolding get_user
get_user_keeps id d e u h =
    let o = find (λ (x : UserRow). x.id == id) d.users in
    (one_row_lem o d e u (queried Query.get_user (one_row o) d (u, e) h)).1

write_role_rule :
    (P : Directory → Type 0) (id : ℕ) (role : Role) (d : Directory)
    → P d
    → ((e : Directory) → Ranked id role d e → P e)
    → P (write_role id role d).1
unfolding write_role
write_role_rule P id role d p q =
    attempt_rule P (update_member_role id role) (λ e. server_error) _ d (λ f h. p)
      (λ r e h.
        attempt_rule P (get_user r.user_id) (λ e. server_error) (λ u. respond (updated r)) e
          (λ f k. q e (ranked id role d e r h))
          (λ u e' k.
            subst P (sym (get_user_keeps r.user_id e e' u k)) (q e (ranked id role d e r h))))

deleted :
    (id : ℕ) (d e : Directory) (r : Unit {0})
    → delete_member id d ≡ ok (r, e)
    → e ≡ record d { members = without_member id d.members }
unfolding delete_member
deleted id d e r h = ground arith

remove_row_rule :
    (P : Directory → Type 0) (id : ℕ) (d : Directory)
    → P d
    → P (record d { members = without_member id d.members })
    → P (remove_row id d).1
unfolding remove_row
remove_row_rule P id d p q =
    attempt_rule P (delete_member id) (λ e. server_error) (λ _. respond no_content) d (λ f h. p)
      (λ r e h. subst P (sym (deleted id d e r h)) q)

change_role_Change :
    (m t : MemberRow) (role : Role) (d : Directory)
    → In t d.members
    → t.workspace_id ≡ m.workspace_id
    → Change m d (change_role m t role d).1
unfolding change_role
change_role_Change m t role d i w =
    unless_rule (Change m d) ((is_owner t || role_eq role Role.owner) && not (is_owner m)) _
      forbidden d (same m d)
      (λ allowed.
        unless_last_rule (Change m d) (is_owner t && not (role_eq role Role.owner)) t.workspace_id
          (write_role t.id role) d (same m d)
          (λ spared.
            write_role_rule (Change m d) t.id role d (same m d)
              (λ e r. ranks t role e i w r.same_workspaces r.same_next r.members allowed spared)))

asked_role_Change :
    (m t : MemberRow) (role : Option Role) (d : Directory)
    → In t d.members
    → t.workspace_id ≡ m.workspace_id
    → Change m d (asked_role m t role d).1
asked_role_Change m t none d i w = same m d
asked_role_Change m t (some role) d i w = change_role_Change m t role d i w

new_role_Change :
    (m t : MemberRow) (role : Option Text) (d : Directory)
    → In t d.members
    → t.workspace_id ≡ m.workspace_id
    → Change m d (new_role m t role d).1
new_role_Change m t none d i w = same m d
new_role_Change m t (some role) d i w =
    unless_rule (Change m d) (is_empty (trim_space role)) _ bad_request d (same m d)
      (λ _. asked_role_Change m t (normalize_member_role role) d i w)

pub update_member_Change :
    (m : MemberRow) (canonical : Bool) (target : Option ℕ) (body : Option Text) (d : Directory)
    → Change m d (update_member m m.workspace_id canonical target body d).1
unfolding update_member
update_member_Change m canonical target body d =
    with_target_rule (Change m d) m.workspace_id canonical target (λ t. new_role m t body) d
      (same m d) (λ t i w. new_role_Change m t body d i w)

drop_Change :
    (m t : MemberRow) (d : Directory)
    → In t d.members
    → t.workspace_id ≡ m.workspace_id
    → (is_owner t && not (is_owner m)) ≡ false
    → Change m d (unless_last (is_owner t) t.workspace_id (remove_row t.id) d).1
drop_Change m t d i w allowed =
    unless_last_rule (Change m d) (is_owner t) t.workspace_id (remove_row t.id) d (same m d)
      (λ spared.
        remove_row_rule (Change m d) t.id d (same m d)
          (drops t _ i w refl refl refl allowed spared))

pub delete_member_request_Change :
    (m : MemberRow) (canonical : Bool) (target : Option ℕ) (d : Directory)
    → Change m d (delete_member_request m m.workspace_id canonical target d).1
unfolding delete_member_request remove_target
delete_member_request_Change m canonical target d =
    with_target_rule (Change m d) m.workspace_id canonical target (remove_target m) d (same m d)
      (λ t i w.
        unless_rule (Change m d) (is_owner t && not (is_owner m)) _ forbidden d (same m d)
          (λ allowed. drop_Change m t d i w allowed))

pub leave_workspace_Change :
    (m : MemberRow) (d : Directory) → In m d.members → Change m d (leave_workspace m d).1
unfolding leave_workspace
leave_workspace_Change m d i = drop_Change m m d i refl (ground arith)

dissolved :
    (id : ℕ) (d e : Directory) (r : Unit {0})
    → delete_workspace (some id) d ≡ ok (r, e)
    → e ≡ without_workspace (some id) d
unfolding delete_workspace
dissolved id d e r h = ground arith

pub delete_workspace_request_Change :
    (m : MemberRow) (d : Directory)
    → is_owner m ≡ true
    → Change m d (delete_workspace_request (some m.workspace_id) d).1
unfolding delete_workspace_request without_workspace
delete_workspace_request_Change m d o =
    attempt_rule (Change m d) (delete_workspace (some m.workspace_id)) (λ e. server_error)
      (λ _. respond no_content) d (λ f h. same m d)
      (λ r e h.
        subst (Change m d) (sym (dissolved m.workspace_id d e r h)) (ends _ refl refl refl o))
