-- ===== src/System/Quiet.antt =====
-- Operations that start no attempt: a work item keeps its issue and agent and is active afterwards
-- only if it was before.
use agentra.Base.{
  ℕ, ◌≤◌, ◌≡◌, refl, Bool, true, false, not, ◌&&◌, ◌||◌, List, [], ◌∷◌, Option, none, some, arith,
  ◌==◌, is_some,
}
use agentra.Store.Rows.{TaskRow}
use agentra.Store.Tx.{Db}
use agentra.Store.Tasks.{is_active}
use agentra.Store.Claims.{count_for}
use agentra.Lifecycle.Phases.{Life, stays, Life-trans, phase}
use agentra.Lifecycle.Links.{Linked}
use agentra.System.Sound.{Sound, clash}

abbrev pub follows : Option TaskRow → Option TaskRow → Bool
follows none none = true
follows none (some t) = false
follows (some t) none = false
follows (some t) (some u) =
    (u.issue_id == t.issue_id)
    && ((u.agent_id == t.agent_id) && (not (is_active u.status) || is_active t.status))

pub record Quiet (db db' : Db) : Type 0 where
  pub same_ids : db'.task_ids ≡ db.task_ids
  pub same_agents : db'.agents ≡ db.agents
  pub next : db.next_id ≤ db'.next_id
  pub tasks : (j : ℕ) → follows (db.tasks j) (db'.tasks j) ≡ true
  pub life : (j : ℕ) → Life (phase (db.tasks j)) (phase (db'.tasks j))
  pub runs : (j : ℕ) → is_some (db'.runs j) ≡ is_some (db.runs j)

follows_refl : (o : Option TaskRow) → follows o o ≡ true
follows_refl o = ground arith

follows_trans :
    (o p q : Option TaskRow) → follows o p ≡ true → follows p q ≡ true → follows o q ≡ true
follows_trans o p q h k = ground arith

pub Quiet-refl : (db : Db) → Quiet db db
Quiet-refl db = record {
  same_ids = refl;
  same_agents = refl;
  next = omega arith;
  tasks = λ j. follows_refl (db.tasks j);
  life = λ j. stays (phase (db.tasks j));
  runs = λ j. refl;
}

pub Quiet-trans : (a b c : Db) → Quiet a b → Quiet b c → Quiet a c
Quiet-trans a b c p q = record {
  same_ids = rw (q.same_ids, p.same_ids);
  same_agents = rw (q.same_agents, p.same_agents);
  next = omega (arith, p.next, q.next);
  tasks = λ j. follows_trans (a.tasks j) (b.tasks j) (c.tasks j) (p.tasks j) (q.tasks j);
  life = λ j. Life-trans _ _ _ (p.life j) (q.life j);
  runs = λ j. rw (q.runs j, p.runs j);
}

count_follows :
    (a : ℕ) (tasks tasks' : ℕ → Option TaskRow)
    → ((j : ℕ) → follows (tasks j) (tasks' j) ≡ true)
    → (ws : List ℕ) → count_for a tasks' ws ≤ count_for a tasks ws
unfolding count_for
count_follows a tasks tasks' f [] = omega arith
count_follows a tasks tasks' f (w ∷ ws) = ground (arith, f w, count_follows a tasks tasks' f ws)

clash-follows :
    (i j : ℕ) (o o' p p' : Option TaskRow)
    → follows o o' ≡ true
    → follows p p' ≡ true
    → clash i j o p ≡ false
    → clash i j o' p' ≡ false
clash-follows i j o o' p p' h k c = ground arith

follows_some : (o p : Option TaskRow) → follows o p ≡ true → is_some p ≡ is_some o
follows_some o p h = ground arith

none_of {ℓ} : {A : Type ℓ} (o p : Option A) → is_some o ≡ is_some p → p ≡ none → o ≡ none
none_of o p h e = ground arith

-- The invariant holds afterwards, and every work item lived as the abstract machine lets it.
pub record Evolves (db db' : Db) : Type 0 where
  pub sound : Sound db'
  pub life : (j : ℕ) → Life (phase (db.tasks j)) (phase (db'.tasks j))

pub Evolves-refl : (db : Db) → Sound db → Evolves db db
Evolves-refl db s = record { sound = s; life = λ j. stays (phase (db.tasks j)) }

pub Evolves-trans : (a b c : Db) → Evolves a b → Evolves b c → Evolves a c
Evolves-trans a b c p q = record {
  sound = q.sound;
  life = λ j. Life-trans _ _ _ (p.life j) (q.life j);
}

-- Operations that start no attempt and keep the ledgers in agreement keep the invariant.
Quiet-Sound : (db db' : Db) → Quiet db db' → Linked db' → Sound db → Sound db'
Quiet-Sound db db' q v s = record {
  linked = v;
  fresh = λ i h.
      let old = s.fresh i (ground (arith, q.next)) in
      (none_of _ _ (follows_some _ _ (q.tasks i)) old.0, none_of _ _ (q.runs i) old.1);
  all_listed = λ i.
      rw (q.same_ids, s.all_listed i, follows_some (db.tasks i) (db'.tasks i) (q.tasks i)) refl;
  once = rw q.same_ids s.once;
  serial = λ i j. clash-follows i j _ _ _ _ (q.tasks i) (q.tasks j) (s.serial i j);
  within = λ a row h. rw q.same_ids (
      omega (
        arith,
        count_follows a db.tasks db'.tasks q.tasks db.task_ids,
        s.within a row (rw q.same_agents at h),
      ));
}

pub Quiet-Evolves : (db db' : Db) → Quiet db db' → Linked db' → Sound db → Evolves db db'
Quiet-Evolves db db' q v s = record { sound = Quiet-Sound db db' q v s; life = q.life }
