-- ===== src/Tasks/Runtime/Exits.antt =====
-- A call of `advance` from a task's own status, and what follows it in a handler.
use async_task.Prelude.{
  Bool, true, false, some, List, [], ◌∷◌, ◌≡◌, refl, sym, subst, ◌∙◌, if◌then◌else◌,
}
use async_task.Outcome.{transition_error, Result, raised}
use async_task.Domain.Status.{TaskStatus}
use async_task.Domain.Transitions.{can_transition}
use async_task.Db.Task.{Task, Table}
use async_task.Db.Assign.{Assign}
use async_task.Db.Dao.Cas.{get, advance}
use async_task.Db.Dao.Calls.{Call, perform}
use async_task.Db.Dao.Closing.{advance_hit, one_refused}
use async_task.Tasks.World.{Env, World, M, pure, ◌>>=◌}
use async_task.Tasks.World.Actions.{
  apply, interfere, commit, note, audit, drop_credential, set_polls,
}
use async_task.Tasks.World.Tables.{bind-table, apply-table}
use async_task.Tasks.Runtime.{finalize_terminal, terminal_sample}

module _ {P : Type 0} (env : Env P) where
  pub finalize-table :
      (task : Task) (s : TaskStatus) (w : World P)
      → (finalize_terminal env task s w).1.table ≡ w.table
  unfolding finalize_terminal terminal_sample ◌>>=◌ set_polls drop_credential audit note
  finalize-table task s w = refl

  pub close-table :
      (b : Bool) (task : Task) (s : TaskStatus) (w : World P)
      → ((if b then finalize_terminal env task s else pure tt) w).1.table ≡ w.table
  unfolding ◌>>=◌
  close-table true task s w = finalize-table task s w
  close-table false task s w = refl

-- A row comes to a status; or the transition is refused and the table is as it was.
abbrev pub Exits :
    {P : Type 0} → Bool → Task → TaskStatus → Table → Result (Unit {0}) × World P → Type 0
Exits true task dst t s = (x : Task) × (get task.task_id s.1.table ≡ some x) × (x.status ≡ dst)
Exits false task dst t s = (s.0 ≡ raised (transition_error task.status dst)) × (s.1.table ≡ t)

module _ {P : Type 0} (task : Task) (w : World P) (alone : w.others ≡ [])
    (found : get task.task_id w.table ≡ some task) where
  -- A call of `advance` from the task's own status, and a rest that leaves the table alone.
  pub then-Exits :
      (f : Bool → M P (Unit {0})) (dst : TaskStatus) (vs : List Assign) (b : Bool)
      → can_transition task.status dst ≡ b
      → ((moved : Bool) (w' : World P) → (f moved w').1.table ≡ w'.table)
      → Exits b task dst w.table
          ((apply (Call.advance task.task_id dst (some (task.status ∷ [])) vs) >>= f) w)
  unfolding perform ◌>>=◌ apply interfere commit advance
  then-Exits f dst vs true h k =
      let c = Call.advance task.task_id dst (some (task.status ∷ [])) vs in
      subst (λ t. (x : Task) × (get task.task_id t ≡ some x) × (x.status ≡ dst))
        (sym (apply-table c w alone) ∙ sym (bind-table (apply c) f w k))
        (advance_hit w.clock dst vs task.task_id w.table found h)
  then-Exits f dst vs false h k = rw (alone, one_refused task.status dst h, advance) (refl, refl)
