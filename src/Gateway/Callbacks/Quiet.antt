-- ===== src/Gateway/Callbacks/Quiet.antt =====
-- What follows a step of a task in a callback leaves the table alone, with no other writer at work.
use async_task.Prelude.{
  ℕ, Bool, not, length, String, Option, some, [], ◌≡◌, refl, Bool-cases, inl, inr, if◌then◌else◌,
}
use async_task.Outcome.{ok, raised}
use async_task.Domain.Transitions.{is_business_terminal}
use async_task.Db.Task.{Task, Table}
use async_task.Db.Dao.Cas.{Written}
use async_task.Db.Dao.Calls.{Call, perform}
use async_task.Tasks.World.{Env, World, pure, Event, callback_event, ◌>>=◌}
use async_task.Tasks.World.Actions.{
  load, interfere, apply, commit, commit_with, audit, note, enqueue, drop_credential,
}
use async_task.Tasks.World.Tables.{apply-table}
use async_task.Tasks.World.Keeps.{Keeps, Keeps-pure, Keeps-raise, Keeps-if, Keeps-elim, Keeps-bind}
use async_task.Tasks.Queues.{transfer_queue}
use async_task.Db.Dao.Advance.{table_after}
use async_task.Tasks.Runtime.{template_of}
use async_task.Tasks.Store.{finalize_task, wants_transfer}

-- No other writer is at work, and the table is this one.
pub record Quiet {P : Type 0} (t : Table) (w : World P) : Type 0 where
  pub same_table : w.table ≡ t
  pub alone : w.others ≡ []

module _ {P : Type 0} (env : Env P) (t : Table) where
  load-Quiet : (id : String) → Keeps (Quiet {P = P} t) (load id)
  unfolding load interfere ◌>>=◌
  load-Quiet id = record {
    at = λ w k. rw k.alone (record { same_table = k.same_table; alone = refl });
  }

  note-Quiet : (e : Event) → Keeps (Quiet {P = P} t) (note e)
  unfolding note
  note-Quiet e = record { at = λ w k. record { same_table = k.same_table; alone = k.alone } }

  drop-Quiet : (id : String) → Keeps (Quiet {P = P} t) (drop_credential id)
  unfolding drop_credential
  drop-Quiet id = record { at = λ w k. record { same_table = k.same_table; alone = k.alone } }

  enqueue-Quiet :
      (queue name id : String) (attempt : Option ℕ)
      → Keeps (Quiet {P = P} t) (enqueue env queue name id attempt)
  unfolding enqueue
  enqueue-Quiet queue name id attempt = record {
    at = λ w k. elim (Bool-cases (env.bus_full queue (length w.trace))) [
      | inl e ↦ rw e k
      | inr e ↦ rw e (record { same_table = k.same_table; alone = k.alone })
    ];
  }

  template-Quiet : (task : Task) → Keeps (Quiet {P = P} t) (template_of env task)
  unfolding template_of
  template-Quiet task =
      Keeps-elim (env.template task.template_alias task.template_version) (Keeps-raise _)
        (λ t. Keeps-pure _)

  finalize-Quiet : (id : String) → Keeps (Quiet {P = P} t) (finalize_task env id)
  unfolding finalize_task
  finalize-Quiet id = Keeps-bind (load-Quiet id) (λ found. Keeps-elim found (Keeps-pure tt) (λ task.
      Keeps-if (not (is_business_terminal task.status)) (Keeps-pure tt) (
        Keeps-bind (template-Quiet task) (λ t.
          Keeps-bind
            (Keeps-if (wants_transfer env t.0 task)
              (enqueue-Quiet transfer_queue "store_result" task.task_id (some 1)) (Keeps-pure tt))
            (λ u. drop-Quiet task.task_id)))))

  pub ending-Quiet :
      (id : String) (moved : Bool)
      → Keeps
          (Quiet {P = P} t)
          (if moved then audit callback_event id >>= (λ u. finalize_task env id) else pure tt)
  unfolding audit
  ending-Quiet id moved =
      Keeps-if moved (Keeps-bind (note-Quiet _) (λ u. finalize-Quiet id)) (Keeps-pure tt)

module _ {P : Type 0} where
  with-others : (c : Call) (r : Written) (w : World P) → (commit_with c r w).1.others ≡ w.others
  with-others c (ok (done, t)) w = refl
  with-others c (raised e) w = refl

  pub apply-Quiet :
      (c : Call) (w : World P)
      → w.others ≡ []
      → Quiet (table_after (perform w.clock c w.table) w.table) (apply c w).1
  unfolding apply interfere commit ◌>>=◌
  apply-Quiet c w alone = record {
    same_table = apply-table c w alone;
    alone = rw alone (with-others c (perform w.clock c w.table) (record w { others = [] }));
  }
