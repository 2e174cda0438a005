-- ===== src/Tasks/Submit.antt =====
-- src/async_gateway/tasks/handlers.py: `submit_upstream` and `_handle_submit_result`.
pub mod Result
pub mod Keeps
pub mod Paths
pub mod Accepted
use async_task.Prelude.{
  ℕ, ◌+◌, Bool, true, false, not, ◌&&◌, ◌||◌, String, str_eq, Option, none, some, is_some, get_or,
  List, [], ◌∷◌, leb, if◌then◌else◌,
}
use async_task.Domain.Status.{
  TaskStatus, accepted, failed, cancelled, timeout, dead, ErrorCode, upstream_4xx, request_lost,
  status_eq,
}
use async_task.Domain.Transitions.{is_business_terminal}
use async_task.Domain.Errors.{submit}
use async_task.Outcome.{raised}
use async_task.Db.Json.{Json}
use async_task.Db.Task.{Task}
use async_task.Db.Assign.{
  Assign, set_error_code, set_error_message, set_retryable, set_finished_at, set_next_poll_at,
}
use async_task.Db.Dao.Calls.{Call}
use async_task.Templates.Schema.{ResolvedTemplate}
use async_task.Tasks.World.{
  Request, create, Strategy, Env, World, M, pure, raise, gets, finally, ◌>>=◌, ◌>>◌,
}
use async_task.Tasks.World.Actions.{load, apply, credential, take_slot, give_slot, send}
use async_task.Tasks.Runtime.{
  template_of, load_create_body, enqueue_self_later, finalize_terminal, is_past, closing, second,
  non_empty,
}
use async_task.Tasks.Submit.Result.{handle_submit_result}

module _ {P : Type 0} (env : Env P) where
  -- The callback's address is given by the task's token.
  abbrev pub callback_of : ResolvedTemplate → Task → Option String
  callback_of template task =
      if template.capabilities.callback then non_empty task.callback_token else none

  -- The create request's body is gone.
  unfoldable pub close_without_body : Task → List TaskStatus → M P (Unit {0})
  close_without_body task expected = do
    at ← gets (λ w. w.clock)
    moved ← apply (
        Call.advance task.task_id dead (some expected)
          (closing request_lost (some "create request body missing in request store") false at))
    if moved then finalize_terminal env task dead else pure tt

  unfoldable pub send_create : Task → ResolvedTemplate → Strategy → Json → M P (Unit {0})
  send_create task template strategy body = do
    result ← send env template (create body (callback_of template task)) submit
    handle_submit_result env task template strategy result

  -- What is done with the create request's body, or without it.
  unfoldable pub submit_loaded :
      Task → ResolvedTemplate → Strategy → List TaskStatus → Option Json → M P (Unit {0})
  unfolding close_without_body send_create
  submit_loaded task template strategy expected none = close_without_body task expected
  submit_loaded task template strategy expected (some body) =
      send_create task template strategy body

  unfoldable pub submit_with_slot :
      Task → ResolvedTemplate → Strategy → List TaskStatus → M P (Unit {0})
  unfolding submit_loaded
  submit_with_slot task template strategy expected = do
    won ← apply (Call.mark_submit_intent task.task_id)
    if not won
        then pure tt
        else submit_loaded task template strategy expected (load_create_body env task)

  unfoldable pub submit_slotted :
      Task → ResolvedTemplate → Strategy → List TaskStatus → M P (Unit {0})
  unfolding submit_with_slot
  submit_slotted task template strategy expected = do
    decision ← take_slot env task.channel task.tenant
    if not decision.granted
        then enqueue_self_later task.task_id (get_or decision.retry_after second)
        else finally (submit_with_slot task template strategy expected)
            (give_slot task.channel task.tenant)

  -- Without a credential the task is closed.
  unfoldable pub close_without_credential : Task → List TaskStatus → M P (Unit {0})
  close_without_credential task expected = do
    at ← gets (λ w. w.clock)
    apply (
        Call.advance task.task_id dead (some expected) (
          closing upstream_4xx (some "upstream credential unavailable (expired or not retained)")
            false at))
    finalize_terminal env task dead

  unfoldable pub submit_past_checks :
      Task → ResolvedTemplate → Strategy → List TaskStatus → M P (Unit {0})
  unfolding submit_slotted close_without_credential
  submit_past_checks task template strategy expected = do
    bearer ← credential task.task_id
    if not (is_some (non_empty bearer))
        then close_without_credential task expected
        else submit_slotted task template strategy expected

  unfoldable pub submit_expired : Task → List TaskStatus → M P (Unit {0})
  submit_expired task expected = do
    moved ← apply (
        Call.advance task.task_id timeout (some expected) (
          set_error_code (some ErrorCode.timeout)
          ∷ set_error_message (some "deadline exceeded before submit")
          ∷ []))
    if moved then finalize_terminal env task timeout else pure tt

  unfoldable pub submit_cancelled : Task → List TaskStatus → M P (Unit {0})
  submit_cancelled task expected = do
    moved ← apply (Call.advance task.task_id cancelled (some expected) [])
    if moved then finalize_terminal env task cancelled else pure tt

  unfoldable pub submit_task : Task → M P (Unit {0})
  unfolding submit_past_checks submit_expired submit_cancelled
  submit_task task = do
    (template, strategy) ← template_of env task
    at ← gets (λ w. w.clock)
    let expected = task.status ∷ []
    if is_past at task.deadline_at
        then submit_expired task expected
        else if task.cancel_requested
        then submit_cancelled task expected
        else submit_past_checks task template strategy expected

  -- The first checks of `submit_upstream`.
  abbrev pub is_submittable : TaskStatus → Bool
  is_submittable s = status_eq s accepted || status_eq s failed

  unfoldable pub submit_upstream : String → M P (Unit {0})
  unfolding submit_task
  submit_upstream id = do
    found ← load id
    elim found [
      | none ↦ pure tt
      | some task ↦
          if is_business_terminal task.status || not (is_submittable task.status)
          then pure tt
          else submit_task task
    ]
