-- ===== src/Tasks/Poll.antt =====
-- src/async_gateway/tasks/handlers.py: `poll_upstream`.
pub mod Snapshot
pub mod Failure
pub mod Answer
pub mod Keeps
pub mod Paths
pub mod Exits
use async_task.Prelude.{
  ℕ, ◌+◌, ◌/◌, Bool, true, false, not, ◌&&◌, ◌||◌, String, Option, none, some, is_some, get_or,
  List, [], ◌∷◌, ltb, if◌then◌else◌,
}
use async_task.Domain.Status.{
  TaskStatus, upstream_submitted, in_progress, poll_unrecognized, submit_unknown, timeout,
  ErrorCode, upstream_terminal, status_eq,
}
use async_task.Domain.Transitions.{is_business_terminal}
use async_task.Domain.Errors.{poll}
use async_task.Db.Task.{Task}
use async_task.Db.Assign.{
  set_error_code, set_error_message, set_finished_at, set_next_poll_at, set_unknown_since,
}
use async_task.Db.Dao.Calls.{Call}
use async_task.Templates.Schema.{ResolvedTemplate}
use async_task.Tasks.World.{get_task, Strategy, Env, World, M, pure, gets, finally, ◌>>=◌, ◌>>◌}
use async_task.Tasks.World.Actions.{load, apply, credential, take_slot, give_slot, send, enqueue}
use async_task.Tasks.Runtime.{
  template_of, enqueue_self_later, finalize_terminal, is_past, second, non_empty,
}
use async_task.Tasks.Poll.Answer.{handle_poll_result}

abbrev pub is_pollable : TaskStatus → Bool
is_pollable s =
    status_eq s upstream_submitted || status_eq s in_progress || status_eq s poll_unrecognized

module _ {P : Type 0} (env : Env P) where
  -- `poll_once`, and what follows under the slot.
  unfoldable pub poll_with_slot : Task → ResolvedTemplate → Strategy → String → M P (Unit {0})
  poll_with_slot task template strategy upstream_id = do
    result ← send env template (get_task upstream_id) poll
    handle_poll_result env task template strategy result

  unfoldable pub poll_known : Task → ResolvedTemplate → Strategy → String → M P (Unit {0})
  unfolding poll_with_slot
  poll_known task template strategy upstream_id = do
    credential task.task_id
    decision ← take_slot env task.channel task.tenant
    if not decision.granted
        then enqueue_self_later task.task_id (get_or decision.retry_after second)
        else finally (poll_with_slot task template strategy upstream_id)
            (give_slot task.channel task.tenant)

  unfoldable pub poll_expired : Task → M P (Unit {0})
  poll_expired task = do
    at ← gets (λ w. w.clock)
    moved ← apply (
        Call.advance task.task_id timeout (some (task.status ∷ [])) (
          set_error_code (some ErrorCode.timeout)
          ∷ set_error_message (some "deadline exceeded")
          ∷ set_finished_at (some at)
          ∷ set_next_poll_at none
          ∷ []))
    if moved then finalize_terminal env task timeout else pure tt

  -- A poll without an upstream id.
  unfoldable pub poll_without_id : Task → M P (Unit {0})
  poll_without_id task = do
    at ← gets (λ w. w.clock)
    apply (
        Call.advance task.task_id submit_unknown (some (task.status ∷ [])) (
          set_error_code (some upstream_terminal)
          ∷ set_error_message (some "poll scheduled without upstream_task_id")
          ∷ set_unknown_since (some at)
          ∷ set_next_poll_at (some at)
          ∷ []))
    pure tt

  unfoldable pub poll_task : Task → M P (Unit {0})
  unfolding poll_known poll_expired poll_without_id
  poll_task task = do
    (template, strategy) ← template_of env task
    at ← gets (λ w. w.clock)
    paused ← gets (λ w. env.polling.paused_for task.channel w.clock w.polls)
    if is_past at task.deadline_at
        then poll_expired task
        else if ltb 0 paused
        then enqueue_self_later task.task_id (paused + second / 2)
        else elim (non_empty task.upstream_task_id) [
          | none ↦ poll_without_id task
          | some upstream_id ↦ poll_known task template strategy upstream_id
        ]

  unfoldable pub poll_upstream : String → M P (Unit {0})
  unfolding poll_task
  poll_upstream id = do
    found ← load id
    elim found [
      | none ↦ pure tt
      | some task ↦
          if is_business_terminal task.status
          then pure tt
          else if status_eq task.status submit_unknown
          then enqueue env "compensate:default" "compensate_orphan" id none
          else if not (is_pollable task.status)
          then pure tt
          else poll_task task
    ]
