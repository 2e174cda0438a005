-- ===== src/Gateway/Callbacks/Apply.antt =====
-- src/async_gateway/gateway/routes.py, `_apply_callback`: what a callback does to its task. The two
-- writes of one session may have calls of others between.
use async_task.Prelude.{ℕ, String, Option, none, some, List, [], ◌∷◌, get_or, if◌then◌else◌}
use async_task.Domain.Status.{TaskStatus, succeeded, timeout, failed, ErrorCode, upstream_terminal}
use async_task.Domain.Transitions.{is_business_terminal}
use async_task.Db.Json.{Json, str, obj, end, field}
use async_task.Db.Task.{Task}
use async_task.Db.Assign.{
  Assign, set_raw_status, set_status_snapshot, set_status_snapshot_at, set_next_poll_at,
  set_finished_at, set_error_code,
}
use async_task.Db.Dao.Calls.{Call}
use async_task.Templates.Schema.{ResolvedTemplate, poll, callback, maps_status}
use async_task.Tasks.World.{callback_event, Env, M, pure, gets, ◌>>=◌, ◌>>◌}
use async_task.Tasks.World.Actions.{load, apply, audit}
use async_task.Tasks.Store.{finalize_task}
use async_task.Gateway.Submission.{status_value}

abbrev pub snapshot_of : Json → Json
snapshot_of (obj d) = obj d
snapshot_of other = obj (field "raw" other end)

-- What `advance` is called with, by the terminal value that the status maps to.
abbrev pub callback_values : TaskStatus → Option String → Json → ℕ → List Assign
callback_values succeeded raw snapshot at =
    set_raw_status raw
    ∷ set_status_snapshot (some snapshot)
    ∷ set_status_snapshot_at (some at)
    ∷ set_next_poll_at none
    ∷ set_finished_at (some at)
    ∷ []
callback_values timeout raw snapshot at =
    set_raw_status raw
    ∷ set_status_snapshot (some snapshot)
    ∷ set_error_code (some ErrorCode.timeout)
    ∷ set_finished_at (some at)
    ∷ set_next_poll_at none
    ∷ []
callback_values _ raw snapshot at =
    set_raw_status raw
    ∷ set_status_snapshot (some snapshot)
    ∷ set_status_snapshot_at (some at)
    ∷ set_error_code (some upstream_terminal)
    ∷ set_finished_at none
    ∷ []

abbrev pub callback_target : TaskStatus → TaskStatus
callback_target succeeded = succeeded
callback_target timeout = timeout
callback_target _ = failed

module _ {P : Type 0} (env : Env P) where
  unfoldable pub advance_by_callback : Task → TaskStatus → Option String → Json → M P (Unit {0})
  advance_by_callback task mapped raw snapshot = do
    at ← gets (λ w. w.clock)
    moved ← apply (
        Call.advance task.task_id (callback_target mapped) (some (task.status ∷ []))
          (callback_values mapped raw snapshot at))
    if moved
        then (do audit callback_event task.task_id; finalize_task env task.task_id)
        else pure tt

  abbrev pub mapped_text : TaskStatus → Option String → Json
  mapped_text mapped raw = obj (
      field "raw_status" (elim raw [ none ↦ Json.null | some s ↦ str s ])
        (field "mapped" (str (status_value mapped)) end))

  -- Polling is the main source: the callback only brings the next poll forward.
  unfoldable pub note_for_poll : Task → TaskStatus → Option String → M P (Unit {0})
  note_for_poll task mapped raw = do
    apply (
        Call.note_attribute task.task_id
          (("pending_terminal_from_callback", mapped_text mapped raw) ∷ []))
    at ← gets (λ w. w.clock)
    apply (Call.schedule_next_poll task.task_id at)
    audit callback_event task.task_id

  unfoldable pub apply_mapped :
      Task → ResolvedTemplate → Option String → Json → Option TaskStatus → M P (Unit {0})
  apply_mapped task template raw snapshot none = do
    apply (
        Call.record_poll_result task.task_id (some snapshot) raw task.next_poll_at
          (task.status ∷ []))
    pure tt
  apply_mapped task template raw snapshot (some mapped) = elim template.status_source [
    | poll ↦ note_for_poll task mapped raw
    | callback ↦ advance_by_callback task mapped raw snapshot
  ]

  -- `_apply_callback`
  unfoldable pub apply_callback : String → Json → Option String → M P (Unit {0})
  unfolding apply_mapped
  apply_callback id payload raw = do
    found ← load id
    elim found [
      | none ↦ audit callback_event id
      | some task ↦
          if is_business_terminal task.status
          then audit callback_event id
          else elim (env.template task.template_alias task.template_version) [
            | none ↦ pure tt
            | some template ↦
                apply_mapped task template raw (snapshot_of payload)
                  (maps_status template (get_or raw ""))
          ]
    ]
