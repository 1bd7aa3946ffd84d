-- ===== src/Members/Serving.antt =====
-- What holds of workspaces and members, whatever is requested.
use agentra.Base.{
  ℕ, ◌≡◌, refl, subst, Bool, true, false, ◌&&◌, List, [], ◌∷◌, some, arith, ==_iff, some_of, inl,
  inr,
}
use agentra.Members.Tables.{Query, MemberRow, Directory}
use agentra.Members.Directory.{is_of}
use agentra.Members.Guards.{parse_uuid}
use agentra.Members.Requests.{
  Request, founds, invites, promotes, removes, leaves, dissolves, serve, after,
}
use agentra.Members.Rules.{In}
use agentra.Members.Changes.{is_owner}
use agentra.Members.Identifiers.{distinct}
use agentra.Members.Owned.{Owned, Change-Owned}
use agentra.Members.Founding.{create_workspace_request-Owned}
use agentra.Members.Privileges.{
  is_founding, workspace_of, user_of, serve_rule, owner_rows, elsewhere, Change-owner_rows,
  Change-elsewhere,
}

others-Owned : (q : Request) (d : Directory) → is_founding q ≡ false → Owned d → Owned (serve q d).1
others-Owned q d f o = serve_rule Owned q d f o (λ m d' c k. Change-Owned m d d' k o)

serve-Owned : (q : Request) (d : Directory) → Owned d → Owned (serve q d).1
unfolding serve
serve-Owned (founds disabled user body) d o = create_workspace_request-Owned disabled user body d o
serve-Owned (invites workspace user body) d o = others-Owned (invites workspace user body) d refl o
serve-Owned (promotes workspace user target body) d o =
    others-Owned (promotes workspace user target body) d refl o
serve-Owned (removes workspace user target) d o =
    others-Owned (removes workspace user target) d refl o
serve-Owned (leaves workspace user) d o = others-Owned (leaves workspace user) d refl o
serve-Owned (dissolves workspace user) d o = others-Owned (dissolves workspace user) d refl o

-- From a directory in which every workspace has an owner, such as an empty one, requests one after
-- another lead to one in which every workspace has an owner, whatever statements fail meanwhile.
pub after-Owned :
    (qs : List ((Query → Bool) × Request)) (d : Directory) → Owned d → Owned (after qs d)
unfolding after
after-Owned [] d o = o
after-Owned ((fails, q) ∷ rest) d o = after-Owned rest (serve q (record d { fails = fails })).1 (
    serve-Owned q (record d { fails = fails })
      (record { owned = o.owned; distinct_ids = o.distinct_ids; given = o.given }))

-- The user of a request that is not an owner is not one of the owners.
not_owner :
    (u w : ℕ) (m : MemberRow) (ms : List MemberRow)
    → some_of (λ x. is_of u w x && is_owner x) ms ≡ false
    → In m ms
    → m.user_id ≡ u
    → m.workspace_id ≡ w
    → is_owner m ≡ false
not_owner u w m [] h i e f = absurd i
not_owner u w m (x ∷ xs) h (inl s) e f =
    ground (arith, s, ==_iff m.user_id u, ==_iff m.workspace_id w)
not_owner u w m (x ∷ xs) h (inr i) e f = ground (arith, not_owner u w m xs)

-- A request of a user who is not an owner of the workspace that it names makes and unmakes no owner of
-- any workspace, provided that no two members have one identifier.
pub serve-owner_rows :
    (q : Request) (u w : ℕ) (d : Directory)
    → distinct d.members ≡ true
    → is_founding q ≡ false
    → parse_uuid (user_of q) ≡ some u
    → parse_uuid (workspace_of q) ≡ some w
    → some_of (λ m. is_of u w m && is_owner m) d.members ≡ false
    → owner_rows (serve q d).1.members ≡ owner_rows d.members
serve-owner_rows q u w d n f hu hw h =
    serve_rule (λ e. owner_rows e.members ≡ owner_rows d.members) q d f refl
      (λ m d' c k.
        Change-owner_rows m d d' k
          (not_owner u w m d.members h c.is_member (cc (c.of_user, hu)) (cc (c.of_workspace, hw)))
          n)

-- A request leaves the members of every workspace but the one that it names as they are, provided that
-- no two members have one identifier.
pub serve-elsewhere :
    (q : Request) (w : ℕ) (d : Directory)
    → distinct d.members ≡ true
    → is_founding q ≡ false
    → parse_uuid (workspace_of q) ≡ some w
    → elsewhere w (serve q d).1.members ≡ elsewhere w d.members
serve-elsewhere q w d n f hw =
    serve_rule (λ e. elsewhere w e.members ≡ elsewhere w d.members) q d f refl
      (λ m d' c k.
        subst (λ x. elsewhere x d'.members ≡ elsewhere x d.members) (cc (c.of_workspace, hw))
          (Change-elsewhere m d d' k n))
