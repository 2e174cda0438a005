-- ===== src/Tasks/Submit/Result.antt =====
-- src/async_gateway/tasks/handlers.py, `_handle_submit_result`: what the answer to a create means.
use async_task.Prelude.{
  ◌*◌, ℕ, ◌+◌, Bool, true, false, not, String, Option, none, some, get_or, List, [], ◌∷◌, leb, min,
  if◌then◌else◌,
}
use Prim.Native.String
use mathlib.Core.Option as Opt
use async_task.Domain.Status.{
  TaskStatus, accepted, failed, dead, ErrorClass, rate_limited, fail_fast, ErrorCode, upstream_5xx,
  upstream_terminal,
}
use async_task.Domain.Errors.{Classification, is_unknown}
use async_task.Outcome.{library_error}
use async_task.Db.Json.{Json, null, bool, num, obj, end, field}
use async_task.Db.Task.{Task}
use async_task.Db.Dao.Calls.{Call}
use async_task.Templates.Expression.{try_extract}
use async_task.Templates.Schema.{ResolvedTemplate}
use async_task.Upstream.{UpstreamCallResult, is_ok, is_ssrf}
use async_task.Tasks.Queues.{poll_queue}
use async_task.Tasks.World.{archived, AuditKind, Strategy, Env, M, pure, raise, gets, ◌>>=◌, ◌>>◌}
use async_task.Tasks.World.Actions.{note, apply, audit, set_polls, enqueue, backoff}
use async_task.Tasks.Runtime.{
  note_channel_healthy, release_for_upstream_wait, finalize_terminal, closing, max_attempts_of,
  or_empty_doc, body_of, second, non_zero,
}

abbrev pub expected : List TaskStatus
expected = accepted ∷ failed ∷ []

abbrev pub is_rate_limited : ErrorClass → Bool
is_rate_limited rate_limited = true
is_rate_limited _ = false

abbrev pub is_fail_fast : ErrorClass → Bool
is_fail_fast fail_fast = true
is_fail_fast _ = false

-- `response_key`
abbrev pub response_key : String → String → String
response_key tenant id = String.◌++◌ "reqresp:" (String.◌++◌ tenant (String.◌++◌ ":" id))

abbrev pub response_archive : ℕ → Option Json → Json
response_archive code payload = obj (
    field "status" (num code)
      (field "body" (get_or payload null) (field "pending" (bool false) end)))

module _ {P : Type 0} (env : Env P) where
  unfoldable pub close_dead : Task → ErrorCode → Option String → Bool → M P (Unit {0})
  close_dead task code message retryable = do
    at ← gets (λ w. w.clock)
    apply (Call.advance task.task_id dead (some expected) (closing code message retryable at))
    finalize_terminal env task dead

  abbrev pub archive_response : Task → UpstreamCallResult → Option Json → M P (Unit {0})
  archive_response task result payload = elim result.response [
    | none ↦ pure tt
    | some up ↦
        note (
          archived (response_key task.tenant task.task_id)
            (response_archive up.status_code payload))
  ]

  -- The upstream accepted the create and the id was found.
  unfoldable pub after_create :
      Task → ResolvedTemplate → UpstreamCallResult → Option Json → Json → M P (Unit {0})
  after_create task template result payload upstream_id = do
    at ← gets (λ w. w.clock)
    interval ← gets (λ w. env.polling.next_interval task.channel 0 true w.polls)
    stored ← apply (
        Call.mark_submitted task.task_id (env.py_str upstream_id)
          (Opt.map env.py_str
            (try_extract env.dump_size env.late template.status_field (or_empty_doc payload)))
          none (at + interval))
    if not stored then pure tt else (do
      apply (Call.note_attribute task.task_id (("create_accepted_at", num at) ∷ []))
      archive_response task result payload
      if task.cancel_requested
          then enqueue env "cancel:default" "cancel_upstream" task.task_id none
          else pure tt
      note_channel_healthy env task.channel
      enqueue env (poll_queue template.pool) "poll_upstream" task.task_id none)

  -- A success without an id: nobody can say that nothing was created.
  unfoldable pub on_missing_id : Task → ResolvedTemplate → M P (Unit {0})
  on_missing_id task template = do
    apply (
        Call.enter_unknown task.task_id upstream_5xx
          (some (
            String.◌++◌ "create succeeded but id not found at "
              (env.path_text template.id_location)))
          none)
    enqueue env "compensate:default" "compensate_orphan" task.task_id none

  unfoldable pub on_create_ok : Task → ResolvedTemplate → UpstreamCallResult → M P (Unit {0})
  unfolding after_create on_missing_id
  on_create_ok task template result =
      let payload = body_of result in
      elim (try_extract env.dump_size env.late template.id_location (or_empty_doc payload)) [
        | none ↦ on_missing_id task template
        | some upstream_id ↦ after_create task template result payload upstream_id
      ]

  unfoldable pub on_rate_limited : Task → UpstreamCallResult → Classification → M P (Unit {0})
  on_rate_limited task result c = do
    at ← gets (λ w. w.clock)
    base ← gets (λ w. env.polling.base_interval task.channel 0 true w.polls)
    let delay = get_or (non_zero result.retry_after) (min base env.settings.submit_retry_max)
    set_polls (env.polling.note_rate_limited task.channel result.retry_after at)
    release_for_upstream_wait env task expected delay c.error_code (Opt.map env.scrub result.error)
        true
    pure tt

  unfoldable pub on_channel_fault : Task → UpstreamCallResult → Classification → M P (Unit {0})
  on_channel_fault task result c = do
    at ← gets (λ w. w.clock)
    set_polls (env.polling.note_rate_limited task.channel none at)
    delay ← backoff env task.attempts (5 * second) (300 * second)
    release_for_upstream_wait env task expected delay c.error_code (Opt.map env.scrub result.error)
        true
    apply (Call.note_attribute task.task_id (("channel_fault", bool true) ∷ []))
    audit AuditKind.channel_fault task.channel

  unfoldable pub on_safe_retry :
      Task → Strategy → UpstreamCallResult → Classification → M P (Unit {0})
  unfolding close_dead
  on_safe_retry task strategy result c =
      if leb (max_attempts_of strategy task) task.attempts
      then close_dead task c.error_code (Opt.map env.scrub result.error) true
      else (do
        at ← gets (λ w. w.clock)
        delay ← backoff env task.attempts second (60 * second)
        apply (
            Call.release_submit_intent task.task_id expected (at + delay) false (some c.error_code)
              (Opt.map env.scrub result.error) (some true) none none)
        pure tt)

  unfoldable pub on_create_error :
      Task → Strategy → UpstreamCallResult → Classification → M P (Unit {0})
  unfolding on_rate_limited on_channel_fault on_safe_retry close_dead
  on_create_error task strategy result c =
      if is_rate_limited c.error_class
      then on_rate_limited task result c
      else if c.channel_fault
      then on_channel_fault task result c
      else if is_fail_fast c.error_class
      then close_dead task c.error_code (Opt.map env.scrub result.error) false
      else if is_unknown c
      then (do
        apply (Call.enter_unknown task.task_id c.error_code (Opt.map env.scrub result.error) none)
        enqueue env "compensate:default" "compensate_orphan" task.task_id none)
      else on_safe_retry task strategy result c

  -- `assert classification is not None` fails as a library error.
  unfoldable pub handle_submit_result :
      Task → ResolvedTemplate → Strategy → UpstreamCallResult → M P (Unit {0})
  unfolding on_create_ok on_create_error close_dead
  handle_submit_result task template strategy result =
      if is_ssrf result.outcome
      then close_dead task upstream_terminal (Opt.map env.scrub result.error) false
      else if is_ok result.outcome
      then on_create_ok task template result
      else elim result.classification [
        | none ↦ raise library_error
        | some c ↦ on_create_error task strategy result c
      ]
