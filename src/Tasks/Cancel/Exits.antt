-- ===== src/Tasks/Cancel/Exits.antt =====
-- Where a cancellation takes a task that was created, from each status.
use async_task.Domain.Transitions.{is_business_terminal}
use async_task.Domain.Errors.{cancel}
use async_task.Domain.Status.{cancelled, accepted, failed}
use async_task.Prelude.{length}
use async_task.Templates.Schema.{ResolvedTemplate}
use async_task.Upstream.{call_result, is_ok}
use async_task.Tasks.World.{cancel_task, requested}
use async_task.Tasks.World.Actions.{send, credential}
use async_task.Tasks.Cancel.{is_gone, cancel_created}
use async_task.Prelude.{
  Bool, true, false, not, ◌||◌, String, some, [], ◌∷◌, ◌≡◌, refl, if◌then◌else◌,
}
use async_task.Domain.Status.{
  TaskStatus, upstream_submitted, in_progress, submit_unknown, poll_unrecognized, status_eq,
}
use async_task.Domain.Transitions.{can_transition}
use async_task.Db.Task.{Task}
use async_task.Db.Dao.Cas.{get}
use async_task.Tasks.World.{Env, World, pure, ◌>>=◌}
use async_task.Tasks.Runtime.{finalize_terminal}
use async_task.Tasks.Runtime.Exits.{Exits, then-Exits, close-table}

abbrev is_lost : TaskStatus → Bool
is_lost s = status_eq s submit_unknown || status_eq s poll_unrecognized

cancel_allowed :
    (s : TaskStatus) → is_business_terminal s ≡ false → can_transition s cancelled ≡ not (is_lost s)
unfolding can_transition is_business_terminal
cancel_allowed accepted h = refl
cancel_allowed upstream_submitted h = refl
cancel_allowed in_progress h = refl
cancel_allowed submit_unknown h = refl
cancel_allowed poll_unrecognized h = refl
cancel_allowed failed h = refl
cancel_allowed _ h = cc h

-- Once the upstream has taken a cancellation, or has nothing to cancel, and no other writer is at
-- work, the task comes to `cancelled`, but from `submit_unknown` and `poll_unrecognized` the
-- handler raises, and the row stays as it was.
pub cancel-Exits :
    {P : Type 0} (env : Env P) (task : Task) (template : ResolvedTemplate) (upstream_id : String)
    (w : World P)
    → is_business_terminal task.status ≡ false
    → w.others ≡ []
    → get task.task_id w.table ≡ some task
    → env.renders template (cancel_task upstream_id) ≡ true
    → (is_ok (call_result (env.wire (length w.trace) (cancel_task upstream_id)) cancel).outcome
        || is_gone
            (call_result (env.wire (length w.trace) (cancel_task upstream_id)) cancel).response)
      ≡ true
    → Exits
        (not (is_lost task.status))
        task
        cancelled
        w.table
        (cancel_created env task template upstream_id w)
unfolding cancel_created ◌>>=◌ send credential
cancel-Exits env task template upstream_id w h alone found renders taken =
    rw (renders, taken)
      (then-Exits task (record w { trace = requested (cancel_task upstream_id) ∷ w.trace }) alone
        found (λ moved. if moved then finalize_terminal env task cancelled else pure tt) cancelled _
        (not (is_lost task.status)) (cancel_allowed task.status h)
        (λ moved w'. close-table env moved task cancelled w'))
