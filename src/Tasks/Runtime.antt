-- ===== src/Tasks/Runtime.antt =====
-- src/async_gateway/tasks/handlers.py: what the handlers share: rescheduling, the closing of a
-- task, the release of a submit for a wait that the upstream causes, the request body.
pub mod Keeps
pub mod Exits
use async_task.Prelude.{
  ℕ, ◌+◌, ◌-◌, Bool, true, false, ◌&&◌, String, Option, none, some, get_or, List, [], ◌∷◌, ltb, leb,
  min, zero, ◌==◌, str_eq, if◌then◌else◌,
}
use async_task.Domain.Status.{TaskStatus, succeeded, ErrorCode}
use async_task.Outcome.{unknown_template}
use async_task.Db.Json.{null, bool, nil, Json, num, obj, end, get_num}
use async_task.Db.Task.{Task}
use async_task.Db.Dao.Calls.{Call}
use async_task.Db.Assign.{
  Assign, set_error_code, set_error_message, set_retryable, set_finished_at, set_next_poll_at,
}
use async_task.Upstream.{UpstreamCallResult}
use async_task.Templates.Schema.{ResolvedTemplate, ResultMode, store}
use async_task.Tasks.Queues.{transfer_queue}
use async_task.Tasks.World.{AuditKind, Strategy, Env, M, pure, raise, gets, ◌>>=◌, ◌>>◌}
use async_task.Tasks.World.Actions.{apply, audit, drop_credential, set_polls, enqueue}

abbrev pub is_store : ResultMode → Bool
is_store store = true
is_store _ = false

abbrev pub second : ℕ
second = 1_000_000

-- `_deadline_extension`
unfoldable pub deadline_extension : Task → ℕ → ℕ → ℕ
unfolding get_num
deadline_extension task want cap =
    min want (cap - get_num "deadline_extended_seconds" 0 task.attributes)

-- The new deadline of `_release_for_upstream_wait`, where there is one.
abbrev pub extended_deadline : Option ℕ → ℕ → Option ℕ
extended_deadline none extension = none
extended_deadline (some at) extension = if ltb 0 extension then some (at + extension) else none

-- `deadline_at and now >= deadline_at`
abbrev pub is_past : ℕ → Option ℕ → Bool
is_past now none = false
is_past now (some at) = leb at now

-- The columns that close a task with an error.
abbrev pub closing : ErrorCode → Option String → Bool → ℕ → List Assign
closing code message retryable at =
    set_error_code (some code)
    ∷ set_error_message message
    ∷ set_retryable (some retryable)
    ∷ set_finished_at (some at)
    ∷ set_next_poll_at none
    ∷ []

-- `n or None`: a zero counts as missing.
abbrev pub non_zero : Option ℕ → Option ℕ
non_zero none = none
non_zero (some n) = if n == 0 then none else some n

-- An empty text counts as missing.
abbrev pub non_empty : Option String → Option String
non_empty none = none
non_empty (some s) = if str_eq s "" then none else some s

-- `int(strategy.get("max_attempts", task.max_attempts or 1))`
abbrev pub max_attempts_of : Strategy → Task → ℕ
max_attempts_of strategy task =
    get_or strategy.max_attempts (if task.max_attempts == 0 then 1 else task.max_attempts)

-- `payload or {}`: Python's falsy documents count as the empty object.
abbrev pub or_empty_doc : Option Json → Json
or_empty_doc none = obj end
or_empty_doc (some null) = obj end
or_empty_doc (some (bool false)) = obj end
or_empty_doc (some (num zero)) = obj end
or_empty_doc (some (Json.str s)) = if str_eq s "" then obj end else Json.str s
or_empty_doc (some (Json.arr nil)) = obj end
or_empty_doc (some j) = j

-- `result.response.json_body if result.response else None`
abbrev pub body_of : UpstreamCallResult → Option Json
body_of result = elim result.response [ none ↦ none | some up ↦ up.json_body ]

-- `started_at or created_at`
abbrev pub since : Task → ℕ
since task = get_or task.started_at task.created_at

module _ {P : Type 0} where
  -- `ctx.enqueue_self_later`
  unfoldable pub enqueue_self_later : String → ℕ → M P (Unit {0})
  enqueue_self_later id delay = do
    at ← gets (λ w. w.clock)
    apply (Call.schedule_next_poll id (at + delay))
    pure tt

module _ {P : Type 0} (env : Env P) where
  -- `_note_channel_healthy`; its errors are swallowed.
  unfoldable pub note_channel_healthy : String → M P (Unit {0})
  note_channel_healthy channel = do
    at ← gets (λ w. w.clock)
    set_polls (env.polling.decay_if_clean channel env.settings.aimd_quiet at)

  -- `registry.require` and `strategy_for`
  unfoldable pub template_of : Task → M P (ResolvedTemplate × Strategy)
  template_of task = elim (env.template task.template_alias task.template_version) [
    | none ↦ raise unknown_template
    | some t ↦ pure (t, env.strategy task.channel t)
  ]

  abbrev pub as_object : Json → Json
  as_object (obj d) = obj d
  as_object _ = obj end

  -- `load_create_body`: `none` where the store raises `RequestDataNotFound`.
  unfoldable pub load_create_body : Task → Option Json
  load_create_body task = elim (non_empty task.create_req_ref) [
    | none ↦ some (obj end)
    | some ref ↦ elim (env.create_body ref) [ none ↦ none | some body ↦ some (as_object body) ]
  ]

  unfoldable pub terminal_sample : Task → M P (Unit {0})
  terminal_sample task = do
    at ← gets (λ w. w.clock)
    set_polls (env.polling.record_terminal task.channel (at - since task))

  unfoldable pub finalize_success : Task → ResolvedTemplate → M P (Unit {0})
  finalize_success task template = do
    terminal_sample task
    if is_store template.result_mode && env.settings.has_result_store
        then enqueue env transfer_queue "store_result" task.task_id (some 1)
        else pure tt
    drop_credential task.task_id
    audit (AuditKind.terminal succeeded) task.task_id

  unfoldable pub finalize_terminal : Task → TaskStatus → M P (Unit {0})
  finalize_terminal task status = do
    terminal_sample task
    drop_credential task.task_id
    audit (AuditKind.terminal status) task.task_id

  -- `_release_for_upstream_wait`
  unfoldable pub release_for_upstream_wait :
      Task → List TaskStatus → ℕ → ErrorCode → Option String → Bool → M P Bool
  release_for_upstream_wait task expected delay code message decrement = do
    let extension = deadline_extension task delay env.settings.deadline_extension_max
    at ← gets (λ w. w.clock)
    released ← apply (
        Call.release_submit_intent task.task_id expected (at + delay) decrement (some code) message
          (some true) none (extended_deadline task.deadline_at extension))
    if released && ltb 0 extension
        then (do
          apply (
              Call.note_attribute task.task_id (
                (
                  "deadline_extended_seconds",
                  num (get_num "deadline_extended_seconds" 0 task.attributes + extension),
                )
                ∷ []))
          pure released)
        else pure released
