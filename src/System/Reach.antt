-- ===== src/System/Reach.antt =====
-- What holds in every database that the operations of the server reach from one where the invariant
-- holds, such as one without work items.
use agentra.Base.{ℕ, ◌≡◌, true, Text}
use agentra.Store.Tx.{Db}
use agentra.Adapter.Stages.{StageRejection}
use agentra.Lifecycle.Guards.{RunLifecycle}
use agentra.Lifecycle.Phases.{Life, phase, is_final, final-Life}
use agentra.System.Sound.{Sound}
use agentra.System.Steps.{Reach, Reach-Evolves}

module _ (l : RunLifecycle) (describe : StageRejection → Text) (db db' : Db)
    (steps : Reach l describe db db') (s : Sound db) where
  -- The invariant holds in every database that the steps reach from one where it holds.
  pub Reach-Sound : Sound db'
  Reach-Sound = (Reach-Evolves l describe db db' steps s).sound

  Reach-Life : (w : ℕ) → Life (phase (db.tasks w)) (phase (db'.tasks w))
  Reach-Life w = (Reach-Evolves l describe db db' steps s).life w

  -- Whatever steps are taken from a database where the invariant holds, a completed or cancelled work
  -- item stays so.
  pub Reach_final :
      (w : ℕ) → is_final (phase (db.tasks w)) ≡ true → phase (db'.tasks w) ≡ phase (db.tasks w)
  Reach_final w h = final-Life _ _ h (Reach-Life w)
