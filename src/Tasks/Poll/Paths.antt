-- ===== src/Tasks/Poll/Paths.antt =====
-- Every path of `poll_upstream` keeps an invariant that respects the accesses and that the part
-- under the slot keeps.
use async_task.Prelude.{◌+◌, ◌/◌, ltb, not, String, none}
use async_task.Domain.Status.{submit_unknown, status_eq}
use async_task.Domain.Transitions.{is_business_terminal}
use async_task.Db.Task.{Task}
use async_task.Templates.Schema.{ResolvedTemplate}
use async_task.Tasks.World.{Env, World, Strategy}
use async_task.Tasks.World.Keeps.{
  Keeps-bind, Keeps-gets, Keeps-elim, Keeps-pure, Keeps-if, Keeps, Respects, keeps_rules,
}
use async_task.Tasks.Runtime.{is_past, second, non_empty}
use async_task.Tasks.Runtime.Keeps.{self_later-Keeps, template_of-Keeps, terminal-Keeps}
use async_task.Tasks.Poll.{
  is_pollable, poll_expired, poll_without_id, poll_known, poll_task, poll_upstream,
}

module _ {P : Type 0} {env : Env P} {K : World P → Type 0} (k : Respects env K) where
  expired-Keeps : (task : Task) → Keeps K (poll_expired env task)
  unfolding poll_expired
  expired-Keeps task = search (keeps_rules, k.applies, terminal-Keeps k) depth 20

  no_id-Keeps : (task : Task) → Keeps K (poll_without_id env task)
  unfolding poll_without_id
  no_id-Keeps task = search (keeps_rules, k.applies) depth 20

  module _
      (slotted : (task : Task) (t : ResolvedTemplate) (s : Strategy) (id : String)
        → Keeps K (poll_known env task t s id)) where
    task-Keeps : (task : Task) → Keeps K (poll_task env task)
    unfolding poll_task
    task-Keeps task = Keeps-bind (template_of-Keeps k task) (λ t. Keeps-bind (Keeps-gets _) (λ at.
        Keeps-bind (Keeps-gets _) (λ paused.
          Keeps-if (is_past at task.deadline_at) (expired-Keeps task) (
            Keeps-if (ltb 0 paused) (self_later-Keeps k task.task_id (paused + second / 2)) (
              Keeps-elim (non_empty task.upstream_task_id) (no_id-Keeps task)
                (λ id. slotted task t.0 t.1 id))))))

    pub poll-Keeps : (id : String) → Keeps K (poll_upstream env id)
    unfolding poll_upstream
    poll-Keeps id = Keeps-bind (k.loads id) (λ found. Keeps-elim found (Keeps-pure tt) (λ task.
        Keeps-if (is_business_terminal task.status) (Keeps-pure tt) (
          Keeps-if (status_eq task.status submit_unknown)
            (k.enqueues "compensate:default" "compensate_orphan" id none)
            (Keeps-if (not (is_pollable task.status)) (Keeps-pure tt) (task-Keeps task)))))
