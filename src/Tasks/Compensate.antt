-- ===== src/Tasks/Compensate.antt =====
-- src/async_gateway/tasks/handlers.py: `compensate_orphan` and `_confirm`, the only way back from
-- an unknown submit.
pub mod Keeps
pub mod Settles
use async_task.Prelude.{
  str_eq, ◌*◌, ℕ, ◌+◌, ◌-◌, Bool, true, false, not, ◌&&◌, ◌||◌, ◌==◌, String, Option, none, some,
  get_or, [], ◌∷◌, leb, if◌then◌else◌,
}
use async_task.Domain.Status.{
  accepted, upstream_submitted, submit_unknown, dead_awaiting_confirm, ErrorCode, unknown_exhausted,
  status_eq,
}
use async_task.Domain.Transitions.{is_business_terminal}
use async_task.Domain.Errors.{poll}
use async_task.Db.Json.{Json, obj}
use async_task.Db.Task.{Task}
use async_task.Db.Assign.{
  set_error_code, set_error_message, set_next_poll_at, set_unknown_since, set_submit_started_at,
}
use async_task.Db.Dao.Calls.{Call}
use async_task.Templates.Expression.{try_extract}
use async_task.Templates.Schema.{
  ResolvedTemplate, Capabilities, ConfirmStrategy, query_by_client_key, list_and_match,
  confirm_auto_allowed,
}
use async_task.Upstream.{UpstreamResponse, UpstreamCallResult, is_ok}
use async_task.Tasks.Queues.{poll_queue}
use async_task.Tasks.World.{confirm_by_key, Strategy, Env, M, pure, gets, ◌>>=◌, ◌>>◌}
use async_task.Tasks.World.Actions.{load, apply, credential, send, enqueue, backoff}
use async_task.Tasks.Runtime.{template_of, finalize_terminal, second, non_empty}

-- `_confirm`'s answer: created under an id, not created, or no conclusion; with its note.
pub data Confirmation : Type 0 where
  created : String → String → Confirmation
  not_created : String → Confirmation
  inconclusive : String → Confirmation

abbrev is_by_key : ConfirmStrategy → Bool
is_by_key query_by_client_key = true
is_by_key _ = false

-- `result.response.json_body` where the call succeeded with an object
abbrev object_of : UpstreamCallResult → Option Json
object_of result = elim result.response [
  | none ↦ none
  | some up ↦ elim up.json_body [
    | some (obj d) ↦ if is_ok result.outcome then some (obj d) else none
    | _ ↦ none
  ]
]

-- `status_code in (404, 400)`
abbrev denies : Option UpstreamResponse → Bool
denies none = false
denies (some up) = up.status_code == 404 || up.status_code == 400

abbrev is_by_list : ConfirmStrategy → Bool
is_by_list list_and_match = true
is_by_list _ = false

abbrev no_strategy : Capabilities → String
no_strategy caps =
    if is_by_list caps.confirm_strategy && caps.list_tasks
    then "list_and_match not implemented in this milestone (requires list endpoint mapping)"
    else "no usable confirmation strategy"

module _ {P : Type 0} (env : Env P) where
  abbrev id_in : ResolvedTemplate → Option Json → Option Json
  id_in template none = none
  id_in template (some body) = try_extract env.dump_size env.late template.id_location body

  unfoldable pub conclude : ResolvedTemplate → UpstreamCallResult → Confirmation
  conclude template result = elim (id_in template (object_of result)) [
    | some value ↦ created (env.py_str value) "confirmed created via query_by_client_key"
    | none ↦
        if denies result.response
        then not_created "confirmed not created via query_by_client_key"
        else inconclusive "confirmation inconclusive (query_by_client_key)"
  ]

  -- The digest, where the strategy asks by it.
  abbrev pub client_key : Task → ResolvedTemplate → Option String
  client_key task template =
      if is_by_key template.capabilities.confirm_strategy
      then non_empty task.create_req_digest
      else none

  unfoldable pub confirm : Task → ResolvedTemplate → M P Confirmation
  unfolding conclude
  confirm task template = elim (client_key task template) [
    | some digest ↦ do
      result ← send env template (confirm_by_key digest) poll
      pure (conclude template result)
    | none ↦ pure (inconclusive (no_strategy template.capabilities))
  ]

  -- The branches that hand the task to a human.
  unfoldable pub await_human : Task → ErrorCode → String → M P (Unit {0})
  await_human task code message = do
    moved ← apply (
        Call.advance task.task_id dead_awaiting_confirm (some (submit_unknown ∷ [])) (
          set_error_code (some code)
          ∷ set_error_message (some message)
          ∷ set_next_poll_at none
          ∷ []))
    if moved then finalize_terminal env task dead_awaiting_confirm else pure tt

  -- Confirmed not created: back to `accepted`, with the intent given back.
  unfoldable pub recreate : Task → M P (Unit {0})
  recreate task = do
    at ← gets (λ w. w.clock)
    moved ← apply (
        Call.advance task.task_id accepted (some (submit_unknown ∷ [])) (
          set_submit_started_at none
          ∷ set_unknown_since none
          ∷ set_next_poll_at (some at)
          ∷ set_error_code none
          ∷ set_error_message none
          ∷ []))
    if moved then enqueue env "submit:default" "submit_upstream" task.task_id none else pure tt

  unfoldable pub relocate : Task → ResolvedTemplate → String → String → M P (Unit {0})
  relocate task template upstream_id detail = do
    at ← gets (λ w. w.clock)
    apply (
        Call.relocate_compensate task.task_id (some upstream_id) upstream_submitted none none
          (some (at + second)) (some detail))
    enqueue env (poll_queue template.pool) "poll_upstream" task.task_id none

  unfoldable pub keep_unknown : Task → String → M P (Unit {0})
  keep_unknown task detail = do
    at ← gets (λ w. w.clock)
    delay ← backoff env (task.confirm_attempts + 1) (10 * second) (300 * second)
    apply (
        Call.relocate_compensate task.task_id none submit_unknown none none (some (at + delay))
          (some detail))
    pure tt

  -- What `compensate_orphan` does with the confirmation; an empty id counts as not created.
  unfoldable pub settle : Task → ResolvedTemplate → Confirmation → M P (Unit {0})
  unfolding recreate relocate keep_unknown
  settle task template (created upstream_id detail) =
      if str_eq upstream_id "" then recreate task else relocate task template upstream_id detail
  settle task template (not_created detail) = recreate task
  settle task template (inconclusive detail) = keep_unknown task detail

  abbrev pub max_lifetime : Strategy → ℕ
  max_lifetime strategy = get_or strategy.unknown_max_lifetime (3600 * second)

  -- The create is known to have happened.
  unfoldable pub resume : Task → ResolvedTemplate → String → M P (Unit {0})
  resume task template upstream_id = do
    at ← gets (λ w. w.clock)
    moved ← apply (
        Call.relocate_compensate task.task_id (some upstream_id) upstream_submitted none none
          (some at) (some "already created; resume polling (no re-create allowed)"))
    if moved
        then enqueue env (poll_queue template.pool) "poll_upstream" task.task_id none
        else pure tt

  unfoldable pub without_id : Task → ResolvedTemplate → Strategy → ℕ → M P (Unit {0})
  unfolding await_human confirm settle
  without_id task template strategy at =
      if leb (get_or task.unknown_since task.updated_at + max_lifetime strategy) at
      then await_human task unknown_exhausted
          "unknown lifetime exceeded; awaiting human confirmation"
      else if not (confirm_auto_allowed template.capabilities)
      then await_human task unknown_exhausted
          "confirm_strategy=manual_only: never auto re-create; awaiting human confirmation"
      else (do
        credential task.task_id
        confirmation ← confirm task template
        settle task template confirmation)

  unfoldable pub compensate_task : Task → M P (Unit {0})
  unfolding await_human resume without_id
  compensate_task task = do
    (template, strategy) ← template_of env task
    at ← gets (λ w. w.clock)
    if task.cancel_requested
        then await_human task ErrorCode.cancelled
            "cancel_requested while task was in submit_unknown; closed for human review"
        else elim (non_empty task.upstream_task_id) [
          | some upstream_id ↦ resume task template upstream_id
          | none ↦ without_id task template strategy at
        ]

  unfoldable pub compensate_orphan : String → M P (Unit {0})
  unfolding compensate_task
  compensate_orphan id = do
    found ← load id
    elim found [
      | none ↦ pure tt
      | some task ↦
          if is_business_terminal task.status || not (status_eq task.status submit_unknown)
          then pure tt
          else compensate_task task
    ]
