-- ===== src/Members/Joining.antt =====
-- CreateMember does what a member may do (server/internal/handler/workspace.go).
use agentra.Base.{
  ℕ, ◌+◌, ◌≤◌, ◌≡◌, ◌∙◌, refl, ap, false, not, ◌&&◌, [], ◌∷◌, ◌++◌, Option, none, some, Text, arith,
  is_empty, to_lower, trim_space, text_eq,
}
use agentra.Members.Tables.{
  Role, MemberRow, UserRow, Query, Directory, Failure, no_rows, Answer, ok, err, role_eq,
}
use agentra.Members.Directory.{
  get_user_by_email, create_user, create_member, insert_member, new_member, find, one_row,
}
use agentra.Members.Guards.{Response, bad_request, forbidden, server_error, Handler, attempt}
use agentra.Members.Handlers.{normalize_member_role, join, load_user, invite, create_member_request}
use agentra.Members.Rules.{queried, one_row_lem, attempt_rule, unless_rule}
use agentra.Members.Changes.{is_owner, Change, same, keeps, joins}

pub inserted :
    (w u : ℕ) (role : Role) (d d' : Directory) (r : MemberRow)
    → create_member w (some u) role d ≡ ok (r, d')
    → (d'.members ≡ d.members ++ new_member d.next_id w u role ∷ [])
      × (d'.workspaces ≡ d.workspaces)
      × (d'.next_id ≡ d.next_id + 1)
unfolding create_member insert_member
inserted w u role d d' r h = ground arith

join_Change :
    (m : MemberRow) (role : Role) (u : UserRow) (d e : Directory)
    → e.members ≡ d.members
    → e.workspaces ≡ d.workspaces
    → d.next_id ≤ e.next_id
    → (role_eq role Role.owner && not (is_owner m)) ≡ false
    → Change m d (join m.workspace_id role u e).1
unfolding join
join_Change m role u d e same_members same_workspaces n allowed =
    attempt_rule (Change m d) (create_member m.workspace_id (some u.id) role) _ _ e
      (λ f h. keeps e same_members same_workspaces n)
      (λ r e' h.
        let (a, b, c) = inserted m.workspace_id u.id role e e' r h in
        joins e.next_id u.id role e' n (omega arith) (b ∙ same_workspaces)
          (a ∙ ap (λ xs. xs ++ new_member e.next_id m.workspace_id u.id role ∷ []) same_members)
          allowed)

-- A directory in which at most a user is new.
record Registered (d e : Directory) : Type 0 where
  same_members : e.members ≡ d.members
  same_workspaces : e.workspaces ≡ d.workspaces
  not_before : d.next_id ≤ e.next_id

found_user :
    (email : Text) (d e : Directory) (u : UserRow) → get_user_by_email email d ≡ ok (u, e) → e ≡ d
unfolding get_user_by_email
found_user email d e u h =
    let o = find (λ (x : UserRow). text_eq x.email email) d.users in
    (one_row_lem o d e u (queried Query.get_user_by_email (one_row o) d (u, e) h)).1

new_user :
    (email : Text) (d e : Directory) (u : UserRow)
    → create_user email d ≡ ok (u, e)
    → Registered d e
unfolding create_user
new_user email d e u h = ground arith

loaded :
    (P : Directory → Type 0) (email : Text) (next : UserRow → Handler) (d : Directory)
    (a : Answer (UserRow × Directory))
    → P d
    → ((u : UserRow) (e : Directory) → Registered d e → P (next u e).1)
    → ((u : UserRow) (e : Directory) → a ≡ ok (u, e) → Registered d e)
    → P
        (elim a as (λ _. Response × Directory) [
          | ok (u, d') ↦ next u d'
          | err e ↦ elim e [
            | no_rows ↦ attempt (create_user email) (λ e. server_error) next d
            | other ↦ (server_error, d)
          ]
        ]).1
loaded P email next d (ok (u, e)) p q k = q u e (k u e refl)
loaded P email next d (err no_rows) p q k =
    attempt_rule P (create_user email) (λ e. server_error) next d (λ f h. p)
      (λ u e h. q u e (new_user email d e u h))
loaded P email next d (err Failure.unique_violation) p q k = p
loaded P email next d (err Failure.missing_reference) p q k = p
loaded P email next d (err Failure.refused) p q k = p

load_user_rule :
    (P : Directory → Type 0) (email : Text) (next : UserRow → Handler) (d : Directory)
    → P d
    → ((u : UserRow) (e : Directory) → Registered d e → P (next u e).1)
    → P (load_user email next d).1
unfolding load_user
load_user_rule P email next d p q = loaded P email next d (get_user_by_email email d) p q (λ u e h.
    let s = found_user email d e u h in
    record {
      same_members = ap (λ (x : Directory). x.members) s;
      same_workspaces = ap (λ (x : Directory). x.workspaces) s;
      not_before = omega (arith, ap (λ (x : Directory). x.next_id) s);
    })

invited :
    (m : MemberRow) (email : Text) (role : Option Role) (d : Directory)
    → Change m d (invite m m.workspace_id email role d).1
invited m email none d = same m d
invited m email (some role) d =
    unless_rule (Change m d) (role_eq role Role.owner && not (is_owner m)) _ forbidden d (same m d)
      (λ allowed.
        load_user_rule (Change m d) email (join m.workspace_id role) d (same m d)
          (λ u e r. join_Change m role u d e r.same_members r.same_workspaces r.not_before allowed))

pub create_member_request_Change :
    (m : MemberRow) (body : Option (Text × Text)) (d : Directory)
    → Change m d (create_member_request m m.workspace_id body d).1
unfolding create_member_request
create_member_request_Change m none d = same m d
create_member_request_Change m (some (email, role)) d =
    unless_rule (Change m d) (is_empty (to_lower (trim_space email))) _ bad_request d (same m d)
      (λ _. invited m (to_lower (trim_space email)) (normalize_member_role role) d)
