-- ===== src/Members/Rules.antt =====
-- Rules for what holds of the directory after a handler, statement by statement.
use agentra.Base.{
  ℕ, ◌≤◌, ◌≡◌, ◌⊎◌, inl, inr, refl, sym, subst, Bool, true, false, ◌&&◌, ◌||◌, List, [], ◌∷◌,
  Option, none, some, arith, if◌then◌else◌, ◌==◌, ==_iff, leb, is_empty, Bool-cases,
}
use agentra.Members.Tables.{
  Role, MemberRow, Query, Directory, Failure, Answer, ok, err, Statement, query,
}
use agentra.Members.Directory.{
  get_member, get_member_by_user_and_workspace, by_user, one_row, find, is_of, members_of,
  list_members,
}
use agentra.Members.Guards.{
  Response, bad_request, unauthorized, forbidden, not_found, server_error, Handler, attempt,
  respond, Param, is_absent, parse_uuid, role_allowed, build_middleware, count_owners,
}
use agentra.Members.Handlers.{unless_last, with_target}

abbrev pub In : {A : Type 0} → A → List A → Type 0
In a [] = ⊥
In a (x ∷ xs) = (x ≡ a) ⊎ In a xs

find-In :
    {A : Type 0} (p : A → Bool) (xs : List A) (a : A) → find p xs ≡ some a → In a xs × (p a ≡ true)
find-In p [] a h = absurd cc
find-In p (x ∷ xs) a h = elim (Bool-cases (p x)) [
  | inl e ↦ ground (arith, e, h)
  | inr e ↦ let (i, q) = find-In p xs a (rw e at h) in (inr i, q)
]

answered :
    {A : Type 0} (Q : Response × Directory → Type 0) (r : Answer (A × Directory))
    (failed : Failure → Response) (next : A → Handler) (d : Directory)
    → ((e : Failure) → r ≡ err e → Q (failed e, d))
    → ((a : A) (d' : Directory) → r ≡ ok (a, d') → Q (next a d'))
    → Q (elim r as (λ _. Response × Directory) [ ok (a, d') ↦ next a d' | err e ↦ (failed e, d) ])
answered Q (ok (a, d')) failed next d bad good = good a d' refl
answered Q (err e) failed next d bad good = bad e refl

-- Of the response and the directory together.
pub attempt_both :
    {A : Type 0} (Q : Response × Directory → Type 0) (m : Statement A) (failed : Failure → Response)
    (next : A → Handler) (d : Directory)
    → ((e : Failure) → m d ≡ err e → Q (failed e, d))
    → ((a : A) (d' : Directory) → m d ≡ ok (a, d') → Q (next a d'))
    → Q (attempt m failed next d)
attempt_both Q m failed next d bad good = answered Q (m d) failed next d bad good

pub attempt_rule :
    {A : Type 0} (P : Directory → Type 0) (m : Statement A) (failed : Failure → Response)
    (next : A → Handler) (d : Directory)
    → ((e : Failure) → m d ≡ err e → P d)
    → ((a : A) (d' : Directory) → m d ≡ ok (a, d') → P (next a d').1)
    → P (attempt m failed next d).1
attempt_rule P m failed next d bad good = attempt_both (λ r. P r.1) m failed next d bad good

pub queried :
    {A : Type 0} (q : Query) (m : Statement A) (d : Directory) (r : A × Directory)
    → query q m d ≡ ok r
    → m d ≡ ok r
queried q m d r h = ground arith

pub one_row_lem :
    {A : Type 0} (o : Option A) (d d' : Directory) (a : A)
    → one_row o d ≡ ok (a, d')
    → (o ≡ some a) × (d' ≡ d)
one_row_lem none d d' a h = absurd cc
one_row_lem (some b) d d' a h = ground arith

get_member_lem :
    (id : Option ℕ) (d d' : Directory) (m : MemberRow)
    → get_member id d ≡ ok (m, d')
    → In m d.members × (d' ≡ d)
unfolding get_member
get_member_lem none d d' m h = absurd (ground arith)
get_member_lem (some id) d d' m h =
    let (found, same) =
      one_row_lem _ d d' m
        (queried Query.get_member (one_row (find (λ x. x.id == id) d.members)) d (m, d') h) in
    ((find-In (λ (x : MemberRow). x.id == id) d.members m found).0, same)

by_user_lem :
    (u w : Option ℕ) (ms : List MemberRow) (m : MemberRow)
    → by_user u w ms ≡ some m
    → In m ms × (w ≡ some m.workspace_id) × (u ≡ some m.user_id)
by_user_lem none w ms m h = absurd cc
by_user_lem (some u) none ms m h = absurd cc
by_user_lem (some u) (some w) ms m h =
    let (i, e) = find-In (is_of u w) ms m h in
    (i, ground (arith, e, ==_iff m.workspace_id w), ground (arith, e, ==_iff m.user_id u))

get_member_by_user_lem :
    (u w : Option ℕ) (d d' : Directory) (m : MemberRow)
    → get_member_by_user_and_workspace u w d ≡ ok (m, d')
    → In m d.members × (w ≡ some m.workspace_id) × (u ≡ some m.user_id) × (d' ≡ d)
unfolding get_member_by_user_and_workspace
get_member_by_user_lem u w d d' m h =
    let (found, same) =
      one_row_lem _ d d' m
        (queried Query.get_member_by_user (one_row (by_user u w d.members)) d (m, d') h) in
    let (i, e, f) = by_user_lem u w d.members m found in (i, e, f, same)

list_members_lem :
    (w : ℕ) (d d' : Directory) (ms : List MemberRow)
    → list_members w d ≡ ok (ms, d')
    → (ms ≡ members_of w d.members) × (d' ≡ d)
unfolding list_members
list_members_lem w d d' ms h = ground arith

when_rule :
    (P : Directory → Type 0) (test : Bool) (next : Handler) (r : Response) (d : Directory)
    → P d
    → (test ≡ true → P (next d).1)
    → P ((if test then next else respond r) d).1
when_rule P true next r d p q = q refl
when_rule P false next r d p q = p

pub unless_rule :
    (P : Directory → Type 0) (test : Bool) (next : Handler) (r : Response) (d : Directory)
    → P d
    → (test ≡ false → P (next d).1)
    → P ((if test then respond r else next) d).1
unless_rule P true next r d p q = p
unless_rule P false next r d p q = q refl

-- A request that passes the guard comes from a member of the workspace in one of the roles.
pub record Passes (roles : List Role) (workspace user : Param) (d : Directory) (m : MemberRow)
    : Type 0 where
  pub is_member : In m d.members
  pub of_workspace : parse_uuid workspace ≡ some m.workspace_id
  pub of_user : parse_uuid user ≡ some m.user_id
  pub in_role : (is_empty roles || role_allowed m.role roles) ≡ true

abbrev checked : List Role → (MemberRow → Handler) → MemberRow → Handler
checked roles next m =
    if is_empty roles || role_allowed m.role roles then next m else respond forbidden

pub build_middleware_rule :
    (P : Directory → Type 0) (roles : List Role) (workspace user : Param)
    (next : MemberRow → Handler) (d : Directory)
    → P d
    → ((m : MemberRow) → Passes roles workspace user d m → P (next m d).1)
    → P (build_middleware roles workspace user next d).1
unfolding build_middleware
build_middleware_rule P roles workspace user next d p q =
    unless_rule P (is_absent workspace) _ bad_request d p (λ a.
      unless_rule P (is_absent user) _ unauthorized d p (λ b.
        attempt_rule P (get_member_by_user_and_workspace (parse_uuid user) (parse_uuid workspace))
          (λ e. not_found) (checked roles next) d (λ e h. p)
          (λ m d' h.
            let (i, e, f, same) =
              get_member_by_user_lem (parse_uuid user) (parse_uuid workspace) d d' m h in
            subst (λ (x : Directory). P (checked roles next m x).1) (sym same)
              (when_rule P (is_empty roles || role_allowed m.role roles) (next m) forbidden d p
                (λ r.
                  q m (record { is_member = i; of_workspace = e; of_user = f; in_role = r }))))))

abbrev in_place : ℕ → Bool → (MemberRow → Handler) → MemberRow → Handler
in_place workspace canonical next t =
    if canonical && (t.workspace_id == workspace) then next t else respond not_found

pub with_target_rule :
    (P : Directory → Type 0) (workspace : ℕ) (canonical : Bool) (target : Option ℕ)
    (next : MemberRow → Handler) (d : Directory)
    → P d
    → ((t : MemberRow) → In t d.members → t.workspace_id ≡ workspace → P (next t d).1)
    → P (with_target workspace canonical target next d).1
unfolding with_target
with_target_rule P workspace canonical target next d p q =
    attempt_rule P (get_member target) (λ e. not_found) (in_place workspace canonical next) d
      (λ e h. p)
      (λ t d' h.
        let (i, same) = get_member_lem target d d' t h in
        subst (λ (x : Directory). P (in_place workspace canonical next t x).1) (sym same)
          (when_rule P (canonical && (t.workspace_id == workspace)) (next t) not_found d p
            (λ e. q t i (ground (arith, ==_iff t.workspace_id workspace)))))

abbrev spared : Handler → List MemberRow → Handler
spared next ms = if leb (count_owners ms) 1 then respond bad_request else next

-- Behind the check for another owner, there are two of them if the change takes one away.
pub unless_last_rule :
    (P : Directory → Type 0) (takes : Bool) (workspace : ℕ) (next : Handler) (d : Directory)
    → P d
    → ((takes ≡ true → 2 ≤ count_owners (members_of workspace d.members)) → P (next d).1)
    → P (unless_last takes workspace next d).1
unfolding unless_last
unless_last_rule P false workspace next d p q = q (λ h. absurd cc)
unless_last_rule P true workspace next d p q =
    attempt_rule P (list_members workspace) (λ e. server_error) (spared next) d (λ e h. p)
      (λ ms d' h.
        let (listed, same) = list_members_lem workspace d d' ms h in
        subst (λ (x : Directory). P (spared next ms x).1) (sym same)
          (unless_rule P (leb (count_owners ms) 1) next bad_request d p
            (λ e. q (λ _. subst (λ xs. 2 ≤ count_owners xs) listed (ground arith)))))
