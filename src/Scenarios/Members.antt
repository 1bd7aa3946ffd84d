-- ===== src/Scenarios/Members.antt =====
-- A workspace with two owners and a member, and requests about it.
use agentra.Base.{
  ◌≡◌, ◌≤◌, refl, subst, Bool, true, false, List, [], ◌∷◌, some, bytes, arith, ==_iff,
}
use agentra.Members.Tables.{Role, Query, Directory}
use agentra.Members.Directory.{
  get_member, get_member_by_user_and_workspace, list_members, set_roles, update_member_role,
  get_user, new_member,
}
use agentra.Members.Guards.{Param, named, bad_request, build_middleware, role_allowed, count_owners}
use agentra.Members.Handlers.{
  leave_workspace, unless_last, remove_row, update_member, with_target, change_role, write_role,
  normalize_member_role,
}
use agentra.Members.Requests.{Request, promotes, removes, leaves, serve, after}
use agentra.Members.Owners.{owners_in}
use agentra.Members.Identifiers.{distinct, below}
use agentra.Members.Owned.{Owned}
use agentra.Members.Privileges.{owner_rows, elsewhere}
use agentra.Members.Serving.{after-Owned, serve-owner_rows, serve-elsewhere}

abbrev never : Query → Bool
never q = false

abbrev pub team : Directory
team = record {
  users =
      record { id = 3; email = bytes "ann@a.example" }
      ∷ record { id = 4; email = bytes "bob@a.example" }
      ∷ record { id = 5; email = bytes "eve@a.example" }
      ∷ [];
  workspaces = record { id = 1; slug = bytes "team" } ∷ [];
  members =
      new_member 10 1 3 Role.owner
      ∷ new_member 11 1 4 Role.owner
      ∷ new_member 12 1 5 Role.member
      ∷ new_member 13 2 5 Role.owner
      ∷ [];
  next_id = 20;
  fails = never;
}

abbrev workspace : Param
workspace = named 1 true

abbrev ann : Param
ann = named 3 true

abbrev bob : Param
bob = named 4 true

abbrev eve : Param
eve = named 5 true

-- Bob makes Ann a member, and cannot leave then.
abbrev demotes : Request
demotes = promotes workspace bob (some 10) (some (bytes "member"))

abbrev asked : List ((Query → Bool) × Request)
asked = (never, demotes) ∷ (never, leaves workspace bob) ∷ []

team-Owned : Owned team
unfolding owners_in count_owners distinct below
team-Owned = record {
  owned = λ w h.
      subst (λ x. 1 ≤ owners_in x team.members) ((==_iff 1 w).0 (ground (arith, h))) (omega arith);
  distinct_ids = refl;
  given = refl;
}

stays : (serve (leaves workspace bob) (serve demotes team).1).0 ≡ bad_request
unfolding serve leave_workspace unless_last remove_row update_member with_target change_role
    write_role normalize_member_role build_middleware role_allowed count_owners
    get_member_by_user_and_workspace get_member list_members set_roles update_member_role get_user
stays = refl

after-Owned_example : Owned (after asked team)
after-Owned_example = after-Owned asked team team-Owned

team_distinct : distinct team.members ≡ true
unfolding distinct
team_distinct = refl

-- Eve, who is no owner, leaves.
serve-owner_rows_example :
    owner_rows (serve (leaves workspace eve) team).1.members ≡ owner_rows team.members
serve-owner_rows_example =
    serve-owner_rows (leaves workspace eve) 5 1 team team_distinct refl refl refl refl

serve-elsewhere_example :
    elsewhere 1 (serve (removes workspace ann (some 12)) team).1.members ≡ elsewhere 1 team.members
serve-elsewhere_example =
    serve-elsewhere (removes workspace ann (some 12)) 1 team team_distinct refl refl
