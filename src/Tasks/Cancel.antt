-- ===== src/Tasks/Cancel.antt =====
-- src/async_gateway/tasks/handlers.py: `cancel_upstream`.
pub mod Keeps
pub mod Exits
use async_task.Prelude.{
  ◌*◌, ◌+◌, Bool, true, false, not, ◌||◌, ◌==◌, String, Option, none, some, [], ◌∷◌, if◌then◌else◌,
}
use async_task.Domain.Status.{accepted, cancelled, ErrorCode, status_eq}
use async_task.Domain.Transitions.{is_business_terminal}
use async_task.Domain.Errors.{cancel}
use async_task.Db.Json.{bool}
use async_task.Db.Task.{Task}
use async_task.Db.Assign.{set_error_code, set_finished_at, set_next_poll_at, set_raw_status}
use async_task.Db.Dao.Calls.{Call}
use async_task.Templates.Schema.{ResolvedTemplate}
use async_task.Upstream.{UpstreamResponse, is_ok}
use async_task.Tasks.World.{cancel_task, Env, M, pure, gets, ◌>>=◌, ◌>>◌}
use async_task.Tasks.World.Actions.{load, apply, credential, send, backoff}
use async_task.Tasks.Runtime.{template_of, enqueue_self_later, finalize_terminal, second, non_empty}

-- `status_code in (404, 409)`
abbrev pub is_gone : Option UpstreamResponse → Bool
is_gone none = false
is_gone (some up) = up.status_code == 404 || up.status_code == 409

module _ {P : Type 0} (env : Env P) where
  -- The upstream cannot cancel.
  unfoldable pub degrade_cancel : Task → M P (Unit {0})
  degrade_cancel task = do
    at ← gets (λ w. w.clock)
    apply (Call.note_attribute task.task_id (("cancel_degraded", bool true) ∷ []))
    if status_eq task.status accepted
        then (do
          apply (
              Call.advance task.task_id cancelled (some (accepted ∷ []))
                (set_error_code (some ErrorCode.cancelled) ∷ set_finished_at (some at) ∷ []))
          finalize_terminal env task cancelled)
        else enqueue_self_later task.task_id (5 * second)

  -- Nothing was created yet.
  unfoldable pub cancel_before_create : Task → M P (Unit {0})
  cancel_before_create task = do
    at ← gets (λ w. w.clock)
    moved ← apply (
        Call.advance task.task_id cancelled (some (accepted ∷ []))
          (set_error_code (some ErrorCode.cancelled) ∷ set_finished_at (some at) ∷ []))
    if moved then finalize_terminal env task cancelled else pure tt

  unfoldable pub cancel_created : Task → ResolvedTemplate → String → M P (Unit {0})
  cancel_created task template upstream_id = do
    credential task.task_id
    result ← send env template (cancel_task upstream_id) cancel
    at ← gets (λ w. w.clock)
    if is_ok result.outcome || is_gone result.response
        then (do
          moved ← apply (
              Call.advance task.task_id cancelled (some (task.status ∷ [])) (
                set_raw_status (some "cancelled")
                ∷ set_error_code (some ErrorCode.cancelled)
                ∷ set_finished_at (some at)
                ∷ set_next_poll_at none
                ∷ []))
          if moved then finalize_terminal env task cancelled else pure tt)
        else (do
          apply (Call.note_attribute task.task_id (("cancel_degraded", bool true) ∷ []))
          delay ← backoff env (task.poll_count + 1) (5 * second) (60 * second)
          enqueue_self_later task.task_id delay)

  unfoldable pub cancel_upstream : String → M P (Unit {0})
  unfolding degrade_cancel cancel_before_create cancel_created
  cancel_upstream id = do
    found ← load id
    elim found [
      | none ↦ pure tt
      | some task ↦ if is_business_terminal task.status then pure tt else (do
        (template, strategy) ← template_of env task
        if not template.capabilities.cancel
            then degrade_cancel task
            else elim (non_empty task.upstream_task_id) [
              | none ↦ cancel_before_create task
              | some upstream_id ↦ cancel_created task template upstream_id
            ])
    ]
