-- ===== src/Tasks/Compensate/Keeps.antt =====
-- `compensate_orphan` keeps every invariant that respects the accesses.
use async_task.Prelude.{ℕ, String, refl}
use async_task.Domain.Status.{ErrorCode}
use async_task.Db.Task.{Task}
use async_task.Templates.Schema.{ResolvedTemplate}
use async_task.Tasks.World.{Env, World, Strategy, ◌>>=◌}
use async_task.Tasks.World.Keeps.{
  Keeps-backoff, Keeps-credential, Keeps-bind, Keeps-elim, Keeps-pure, Keeps-gets, Keeps-if, Keeps,
  Respects, keeps_rules,
}
use async_task.Tasks.World.Actions.{credential}
use async_task.Tasks.Runtime.{non_empty}
use async_task.Tasks.Runtime.Keeps.{template_of-Keeps, terminal-Keeps}
use async_task.Tasks.Compensate.{
  Confirmation, created, not_created, inconclusive, confirm, await_human, recreate, relocate,
  keep_unknown, settle, compensate_task, client_key, resume, without_id, compensate_orphan,
}

module _ {P : Type 0} {env : Env P} {K : World P → Type 0} (k : Respects env K) where
  confirm-Keeps : (task : Task) (t : ResolvedTemplate) → Keeps K (confirm env task t)
  unfolding confirm
  confirm-Keeps task t =
      Keeps-elim (client_key env task t) (Keeps-pure _)
        (λ digest. Keeps-bind (k.sends t _ _ refl) (λ result. Keeps-pure _))

  await_human-Keeps :
      (task : Task) (code : ErrorCode) (message : String)
      → Keeps K (await_human env task code message)
  unfolding await_human
  await_human-Keeps task code message = search (keeps_rules, k.applies, terminal-Keeps k) depth 16

  recreate-Keeps : (task : Task) → Keeps K (recreate env task)
  unfolding recreate
  recreate-Keeps task = search (keeps_rules, k.applies, k.enqueues) depth 16

  relocate-Keeps :
      (task : Task) (t : ResolvedTemplate) (id detail : String)
      → Keeps K (relocate env task t id detail)
  unfolding relocate
  relocate-Keeps task t id detail = search (keeps_rules, k.applies, k.enqueues) depth 16

  keep_unknown-Keeps : (task : Task) (detail : String) → Keeps K (keep_unknown env task detail)
  unfolding keep_unknown
  keep_unknown-Keeps task detail = search (keeps_rules, k.applies, Keeps-backoff k) depth 16

  settle-Keeps :
      (task : Task) (t : ResolvedTemplate) (c : Confirmation) → Keeps K (settle env task t c)
  unfolding settle
  settle-Keeps task t (created id detail) =
      Keeps-if _ (recreate-Keeps task) (relocate-Keeps task t id detail)
  settle-Keeps task t (not_created detail) = recreate-Keeps task
  settle-Keeps task t (inconclusive detail) = keep_unknown-Keeps task detail

  resume-Keeps : (task : Task) (t : ResolvedTemplate) (id : String) → Keeps K (resume env task t id)
  unfolding resume
  resume-Keeps task t id = search (keeps_rules, k.applies, k.enqueues) depth 16

  ask-Keeps :
      (task : Task) (t : ResolvedTemplate)
      → Keeps K (credential task.task_id >>= λ u. confirm env task t >>= settle env task t)
  ask-Keeps task t =
      Keeps-bind (Keeps-credential k task.task_id)
        (λ u. Keeps-bind (confirm-Keeps task t) (settle-Keeps task t))

  absent-Keeps :
      (task : Task) (t : ResolvedTemplate) (s : Strategy) (at : ℕ)
      → Keeps K (without_id env task t s at)
  unfolding without_id
  absent-Keeps task t s at = search (keeps_rules, await_human-Keeps, ask-Keeps) depth 16

  task-Keeps : (task : Task) → Keeps K (compensate_task env task)
  unfolding compensate_task
  task-Keeps task = Keeps-bind (template_of-Keeps k task) (λ t. Keeps-bind (Keeps-gets _) (λ at.
      Keeps-if task.cancel_requested (await_human-Keeps task _ _) (
        Keeps-elim (non_empty task.upstream_task_id) (absent-Keeps task t.0 t.1 at)
          (λ id. resume-Keeps task t.0 id))))

  pub compensate-Keeps : (id : String) → Keeps K (compensate_orphan env id)
  unfolding compensate_orphan
  compensate-Keeps id = Keeps-bind (k.loads id) (λ found.
      Keeps-elim found (Keeps-pure tt) (λ task. Keeps-if _ (Keeps-pure tt) (task-Keeps task)))
