-- ===== src/Tasks/World/Tables.antt =====
-- What single actions do to the table, with no other writer at work.
use async_task.Prelude.{ℕ, String, Option, [], ◌≡◌, refl, Bool-cases, inl, inr, length}
use async_task.Outcome.{Result, ok, raised}
use async_task.Db.Dao.Cas.{Written}
use async_task.Db.Dao.Calls.{Call, perform}
use async_task.Db.Dao.Advance.{table_after}
use async_task.Tasks.World.{Env, World, M, ◌>>=◌, continue}
use async_task.Tasks.World.Actions.{interfere, commit, commit_with, apply, enqueue}

module _ {P : Type 0} where
  pub with-table :
      (c : Call) (r : Written) (w : World P) → (commit_with c r w).1.table ≡ table_after r w.table
  with-table c (ok (done, t)) w = refl
  with-table c (raised e) w = refl

  -- A continuation that leaves the table alone.
  pub continue-table :
      {A B : Type 0} (r : Result A) (f : A → M P B) (w : World P)
      → ((a : A) (w' : World P) → (f a w').1.table ≡ w'.table)
      → (continue r f w).1.table ≡ w.table
  continue-table (ok a) f w h = h a w
  continue-table (raised e) f w h = refl

  pub bind-table :
      {A B : Type 0} (m : M P A) (f : A → M P B) (w : World P)
      → ((a : A) (w' : World P) → (f a w').1.table ≡ w'.table)
      → ((m >>= f) w).1.table ≡ (m w).1.table
  unfolding ◌>>=◌
  bind-table m f w h = continue-table (m w).0 f (m w).1 h

  pub apply-table :
      (c : Call) (w : World P)
      → w.others ≡ []
      → (apply c w).1.table ≡ table_after (perform w.clock c w.table) w.table
  unfolding apply ◌>>=◌ interfere commit
  apply-table c w alone =
      rw alone (with-table c (perform w.clock c w.table) (record w { others = [] }))

  pub enqueue-table :
      (env : Env P) (queue name id : String) (attempt : Option ℕ) (w : World P)
      → (enqueue env queue name id attempt w).1.table ≡ w.table
  unfolding enqueue
  enqueue-table env queue name id attempt w =
      elim (Bool-cases (env.bus_full queue (length w.trace))) [
        | inl e ↦ rw e refl
        | inr e ↦ rw e refl
      ]
