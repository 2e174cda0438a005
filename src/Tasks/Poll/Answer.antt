-- ===== src/Tasks/Poll/Answer.antt =====
-- src/async_gateway/tasks/handlers.py, `_handle_poll_result` and `_enter_poll_unrecognized`: what
-- a successful answer says of the task.
use async_task.Prelude.{
  ◌*◌, ◌+◌, ◌-◌, true, false, not, String, none, some, [], ◌∷◌, ltb, if◌then◌else◌,
}
use Prim.Native.String
use async_task.Domain.Status.{
  in_progress, poll_unrecognized, failed, succeeded, timeout, dead, ErrorCode, upstream_terminal,
  unknown_exhausted, status_eq,
}
use async_task.Db.Task.{Task}
use async_task.Db.Assign.{
  set_raw_status, set_status_snapshot, set_status_snapshot_at, set_poll_count, set_last_polled_at,
  set_next_poll_at, set_finished_at, set_error_code, set_error_message, set_retryable,
  set_unknown_since,
}
use async_task.Db.Dao.Calls.{Call}
use async_task.Templates.Expression.{try_extract}
use async_task.Templates.Schema.{ResolvedTemplate, maps_status}
use async_task.Upstream.{UpstreamCallResult, is_ok}
use async_task.Tasks.World.{AuditKind, Strategy, Env, M, pure, gets, ◌>>=◌, ◌>>◌}
use async_task.Tasks.World.Actions.{apply, audit, backoff}
use async_task.Tasks.Runtime.{
  note_channel_healthy, finalize_success, finalize_terminal, closing, since, second,
  max_attempts_of, or_empty_doc, body_of,
}
use async_task.Tasks.Poll.Snapshot.{snapshot_with_status, restore_raw_result_field}
use async_task.Tasks.Poll.Failure.{on_poll_failure}

abbrev pub upstream_reported : String → String
upstream_reported native = String.◌++◌ "upstream reported " native

module _ {P : Type 0} (env : Env P) where
  unfoldable pub enter_poll_unrecognized : Task → UpstreamCallResult → String → M P (Unit {0})
  enter_poll_unrecognized task result reason = do
    at ← gets (λ w. w.clock)
    if status_eq task.status poll_unrecognized
        then (do
          apply (
              Call.record_poll_result task.task_id (body_of result) none (some (at + 30 * second))
                (task.status ∷ []))
          pure tt)
        else (do
          apply (
              Call.advance task.task_id poll_unrecognized (some (task.status ∷ [])) (
                set_status_snapshot (body_of result)
                ∷ set_status_snapshot_at (some at)
                ∷ set_raw_status none
                ∷ set_error_code (some unknown_exhausted)
                ∷ set_error_message (some reason)
                ∷ set_unknown_since (some at)
                ∷ set_next_poll_at (some (at + 30 * second))
                ∷ []))
          audit AuditKind.poll_unrecognized task.task_id)

  -- A native status that is no terminal one: the upstream is at work.
  unfoldable pub on_running : Task → ResolvedTemplate → UpstreamCallResult → String → M P (Unit {0})
  on_running task template result native = do
    at ← gets (λ w. w.clock)
    interval ←
        gets (λ w. env.polling.next_interval task.channel (w.clock - since task) false w.polls)
    apply (
        Call.record_poll_result task.task_id (snapshot_with_status (body_of result) template native)
          (some native) (some (at + interval)) (task.status ∷ []))
    if status_eq task.status in_progress then pure tt else (do
      apply (
          Call.advance task.task_id in_progress (some (task.status ∷ []))
            (set_unknown_since none ∷ []))
      pure tt)

  unfoldable pub on_succeeded :
      Task → ResolvedTemplate → UpstreamCallResult → String → M P (Unit {0})
  on_succeeded task template result native = do
    at ← gets (λ w. w.clock)
    moved ← apply (
        Call.advance task.task_id succeeded (some (task.status ∷ [])) (
          set_raw_status (some native)
          ∷ set_status_snapshot (
              restore_raw_result_field env.dump_size env.late
                (snapshot_with_status (body_of result) template native) template result)
          ∷ set_status_snapshot_at (some at)
          ∷ set_poll_count (task.poll_count + 1)
          ∷ set_last_polled_at (some at)
          ∷ set_next_poll_at none
          ∷ set_finished_at (some at)
          ∷ set_error_code none
          ∷ set_error_message none
          ∷ []))
    if moved then finalize_success env task template else pure tt

  unfoldable pub on_expired : Task → ResolvedTemplate → UpstreamCallResult → String → M P (Unit {0})
  on_expired task template result native = do
    at ← gets (λ w. w.clock)
    moved ← apply (
        Call.advance task.task_id timeout (some (task.status ∷ [])) (
          set_raw_status (some native)
          ∷ set_status_snapshot (snapshot_with_status (body_of result) template native)
          ∷ set_error_code (some ErrorCode.timeout)
          ∷ set_error_message (some (upstream_reported native))
          ∷ set_finished_at (some at)
          ∷ set_next_poll_at none
          ∷ []))
    if moved then finalize_terminal env task timeout else pure tt

  unfoldable pub on_failed :
      Task → ResolvedTemplate → Strategy → UpstreamCallResult → String → M P (Unit {0})
  on_failed task template strategy result native =
      let snapshot = snapshot_with_status (body_of result) template native in
      if ltb task.attempts (max_attempts_of strategy task)
      then (do
        at ← gets (λ w. w.clock)
        delay ← backoff env task.attempts second (60 * second)
        moved ← apply (
            Call.advance task.task_id failed (some (task.status ∷ [])) (
              set_raw_status (some native)
              ∷ set_status_snapshot snapshot
              ∷ set_status_snapshot_at (some at)
              ∷ set_error_code (some upstream_terminal)
              ∷ set_error_message (some (upstream_reported native))
              ∷ set_retryable (some true)
              ∷ set_next_poll_at (some (at + delay))
              ∷ []))
        if moved then audit AuditKind.task_level_retry task.task_id else pure tt)
      else (do
        at ← gets (λ w. w.clock)
        moved ← apply (
            Call.advance task.task_id dead (some (task.status ∷ [])) (
              set_raw_status (some native)
              ∷ set_status_snapshot snapshot
              ∷ closing upstream_terminal
                  (some (String.◌++◌ (upstream_reported native) "; retries exhausted")) true at))
        if moved then finalize_terminal env task dead else pure tt)

  -- `maps_status` answers with one of three states; the last case is the source's fall-through.
  unfoldable pub on_native :
      Task → ResolvedTemplate → Strategy → UpstreamCallResult → String → M P (Unit {0})
  unfolding on_running on_succeeded on_expired on_failed
  on_native task template strategy result native = elim (maps_status template native) [
    | none ↦ on_running task template result native
    | some mapped ↦
        if status_eq mapped succeeded
        then on_succeeded task template result native
        else if status_eq mapped timeout
        then on_expired task template result native
        else on_failed task template strategy result native
  ]

  unfoldable pub handle_poll_result :
      Task → ResolvedTemplate → Strategy → UpstreamCallResult → M P (Unit {0})
  unfolding on_native enter_poll_unrecognized on_poll_failure
  handle_poll_result task template strategy result =
      if not (is_ok result.outcome) then on_poll_failure env task result else (do
        note_channel_healthy env task.channel
        elim (try_extract env.dump_size env.late template.status_field
            (or_empty_doc (body_of result))) [
              | none ↦ enter_poll_unrecognized task result "status field not extractable"
              | some raw ↦ on_native task template strategy result (env.py_str raw)
            ])
