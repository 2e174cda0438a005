-- ===== src/Workers/Scheduler.antt =====
-- src/async_gateway/workers/scheduler.py: `target_queue_and_name` and `dispatch_due`.
pub mod Targets
pub mod Lease
use async_task.Prelude.{ℕ, not, ◌&&◌, String, str_eq, Option, none, some, [], ◌∷◌, if◌then◌else◌}
use mathlib.Core.Option as Opt
use async_task.Domain.Status.{
  TaskStatus, accepted, upstream_submitted, in_progress, submit_unknown, poll_unrecognized, failed,
  status_eq,
}
use async_task.Db.Task.{Task}
use async_task.Db.Dao.Calls.{Call}
use async_task.Db.Dao.Writes.{unset}
use async_task.Db.Dao.Queries.{due_for_dispatch}
use async_task.Templates.Schema.{ResolvedTemplate}
use async_task.Tasks.Queues.{poll_queue}
use async_task.Tasks.World.{Env, M, pure, gets, ◌>>=◌, ◌>>◌}
use async_task.Tasks.World.Actions.{commit, enqueue}
use async_task.Workers.Session.{in_session, for_each}

-- `DISPATCH_BY_STATUS.get(status)`
unfoldable pub dispatch_by_status : TaskStatus → Option String
dispatch_by_status upstream_submitted = some "poll_upstream"
dispatch_by_status in_progress = some "poll_upstream"
dispatch_by_status poll_unrecognized = some "poll_upstream"
dispatch_by_status submit_unknown = some "compensate_orphan"
dispatch_by_status failed = some "submit_upstream"
dispatch_by_status _ = none

abbrev resubmit : Task → Option String
resubmit task =
    if status_eq task.status accepted && unset task.submit_started_at
    then some "submit_upstream"
    else none

-- The handler's name: the table's, or the resubmission of an accepted task without an intent.
unfoldable pub handler_of : Task → Option String
unfolding dispatch_by_status
handler_of task = elim (dispatch_by_status task.status) [
  | some name ↦ some name
  | none ↦ resubmit task
]

-- `tv.resolved.pool if tv else None`
abbrev pool_of_template : Option ResolvedTemplate → Option String
pool_of_template none = none
pool_of_template (some t) = t.pool

module _ {P : Type 0} (env : Env P) where
  unfoldable pub queue_of : Task → String → String
  queue_of task name =
      if str_eq name "poll_upstream"
      then poll_queue (pool_of_template (env.template task.template_alias task.template_version))
      else if str_eq name "submit_upstream"
      then "submit:default"
      else if str_eq name "compensate_orphan"
      then "compensate:default"
      else "finalize:default"

  unfoldable pub target_queue_and_name : Task → Option (String × String)
  unfolding handler_of queue_of
  target_queue_and_name task = Opt.map (λ name. (queue_of task name, name)) (handler_of task)

  unfoldable pub dispatch_to : Task → ℕ → String × String → M P ℕ
  dispatch_to task lease target = do
    leased ← commit (Call.lease_dispatch task.task_id lease (task.status ∷ []))
    if not leased then pure 0 else (do enqueue env target.0 target.1 task.task_id none; pure 1)

  -- One round of the loop.
  unfoldable pub dispatch_task : ℕ → Task → M P ℕ
  unfolding target_queue_and_name dispatch_to
  dispatch_task lease task = elim (target_queue_and_name task) [
    | none ↦ pure 0
    | some target ↦ dispatch_to task lease target
  ]

  unfoldable pub dispatch_due : ℕ → ℕ → M P ℕ
  unfolding in_session dispatch_task
  dispatch_due batch lease = in_session (do
    due ← gets (λ w. due_for_dispatch batch w.clock w.table)
    for_each (dispatch_task lease) due)
