-- ===== src/Tasks/Store.antt =====
-- src/async_gateway/tasks/handlers.py: `finalize_task`, `store_result` and the dispatch table.
pub mod Keeps
use async_task.Prelude.{
  ◌*◌, ℕ, ◌+◌, Bool, not, ◌&&◌, ◌||◌, ltb, String, Option, none, some, is_some, get_or,
  if◌then◌else◌,
}
use Prim.Native.String
use text.Mathlib.Text.{starts_with}
use async_task.Domain.Status.{succeeded, status_eq}
use async_task.Domain.Transitions.{is_business_terminal}
use async_task.Db.Json.{Json, str, num, obj, end, field}
use async_task.Db.Task.{Task}
use async_task.Db.Dao.Calls.{Call}
use async_task.Templates.Expression.{try_extract}
use async_task.Templates.Schema.{ResolvedTemplate}
use async_task.Tasks.Queues.{transfer_queue}
use async_task.Tasks.World.{
  AuditKind, stored, FetchResult, got, fetch_failed, Env, M, pure, gets, ◌>>=◌, ◌>>◌,
}
use async_task.Tasks.World.Actions.{
  load, apply, audit, note, credential, drop_credential, enqueue, backoff, fetch,
}
use async_task.Tasks.Runtime.{template_of, is_store, second, or_empty_doc}

abbrev pub max_transfer_attempts : ℕ
max_transfer_attempts = 5

-- A failure that no retry mends.
abbrev pub is_permanent : String → Bool
is_permanent detail = starts_with detail "ssrf_rejected" || starts_with detail "result too large"

-- `isinstance(upstream_url, str)` on what was extracted
abbrev text_of : Option Json → Option String
text_of (some (str s)) = some s
text_of _ = none

module _ {P : Type 0} (env : Env P) where
  abbrev pub wants_transfer : ResolvedTemplate → Task → Bool
  wants_transfer template task =
      status_eq task.status succeeded
      && is_store template.result_mode
      && env.settings.has_result_store
      && not (is_some task.result_ref)

  unfoldable pub finalize_task : String → M P (Unit {0})
  finalize_task id = do
    found ← load id
    elim found [
      | none ↦ pure tt
      | some task ↦ if not (is_business_terminal task.status) then pure tt else (do
        (template, strategy) ← template_of env task
        if wants_transfer template task
            then enqueue env transfer_queue "store_result" task.task_id (some 1)
            else pure tt
        drop_credential task.task_id)
    ]

  unfoldable pub give_up_transfer : Task → String → M P (Unit {0})
  give_up_transfer task detail = do
    apply (Call.mark_result_unavailable task.task_id detail)
    audit AuditKind.transfer_failed task.task_id

  -- The result was not fetched.
  unfoldable pub on_fetch_failed : Task → ℕ → String → M P (Unit {0})
  unfolding give_up_transfer
  on_fetch_failed task attempt detail =
      if not (is_permanent detail) && ltb attempt max_transfer_attempts
      then (do
        at ← gets (λ w. w.clock)
        delay ← backoff env attempt (5 * second) (120 * second)
        apply (Call.schedule_transfer_retry task.task_id (at + delay) attempt)
        pure tt)
      else give_up_transfer task detail

  unfoldable pub settle_fetch : Task → ℕ → FetchResult → M P (Unit {0})
  unfolding on_fetch_failed
  settle_fetch task attempt (fetch_failed detail) = on_fetch_failed task attempt detail
  settle_fetch task attempt (got bytes) = do
    note (stored (env.result_key task))
    done ← apply (
        Call.set_result_ref task.task_id (env.result_key task)
          (some (obj (field "bytes" (num bytes) end))) none)
    if done then audit AuditKind.result_export task.task_id else pure tt

  unfoldable pub transfer : Task → ℕ → String → M P (Unit {0})
  unfolding settle_fetch
  transfer task attempt url = do
    credential task.task_id
    answer ← fetch env url
    settle_fetch task attempt answer

  abbrev pub result_url : ResolvedTemplate → Task → Option String
  result_url template task = text_of (
      try_extract env.dump_size env.late template.result_location
        (or_empty_doc task.status_snapshot))

  unfoldable pub store_task : Task → ℕ → ResolvedTemplate → M P (Unit {0})
  unfolding transfer give_up_transfer
  store_task task attempt template =
      if not (is_store template.result_mode) then pure tt else elim (result_url template task) [
        | none ↦
            give_up_transfer task (
              String.◌++◌ "result url not extractable at " (env.path_text template.result_location))
        | some url ↦ transfer task attempt url
      ]

  -- `attempt` is the payload's, 1 by default.
  unfoldable pub store_result : String → Option ℕ → M P (Unit {0})
  unfolding store_task
  store_result id attempt = do
    found ← load id
    elim found [
      | none ↦ pure tt
      | some task ↦
          if not (status_eq task.status succeeded)
          then pure tt
          else if is_some task.result_ref
          then pure tt
          else if not env.settings.has_result_store
          then pure tt
          else (do
            (template, strategy) ← template_of env task
            store_task task (get_or attempt 1) template)
    ]
