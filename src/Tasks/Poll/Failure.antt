-- ===== src/Tasks/Poll/Failure.antt =====
-- src/async_gateway/tasks/handlers.py, `_handle_poll_result`: the answers that are no success.
use async_task.Prelude.{
  ◌*◌, ℕ, ◌+◌, ◌-◌, Bool, true, false, ◌&&◌, ◌==◌, Option, none, some, get_or, [], ◌∷◌, ltb,
  if◌then◌else◌,
}
use mathlib.Core.Option as Opt
use async_task.Domain.Status.{submit_unknown, dead, ErrorClass, rate_limited, upstream_terminal}
use async_task.Domain.Errors.{Classification, is_confirm}
use async_task.Db.Json.{num, get_num}
use async_task.Db.Task.{Task}
use async_task.Db.Assign.{set_error_code, set_error_message, set_unknown_since, set_next_poll_at}
use async_task.Db.Dao.Calls.{Call}
use async_task.Upstream.{UpstreamResponse, UpstreamCallResult, is_ssrf}
use async_task.Tasks.World.{AuditKind, Env, M, pure, gets, ◌>>=◌, ◌>>◌}
use async_task.Tasks.World.Actions.{apply, audit, set_polls, enqueue, backoff}
use async_task.Tasks.Runtime.{finalize_terminal, closing, since, second, non_zero}

abbrev pub poll_404_confirm_threshold : ℕ
poll_404_confirm_threshold = 3

abbrev is_rate_limited : ErrorClass → Bool
is_rate_limited rate_limited = true
is_rate_limited _ = false

-- `result.response is not None and result.response.status_code == 404`
abbrev is_404 : Option UpstreamResponse → Bool
is_404 none = false
is_404 (some up) = up.status_code == 404

module _ {P : Type 0} (env : Env P) where
  -- `reschedule`; `seconds` is `none` where the source passes nothing or zero.
  unfoldable pub reschedule : Task → Option ℕ → M P (Unit {0})
  reschedule task seconds = do
    at ← gets (λ w. w.clock)
    interval ← gets (λ w.
        get_or seconds
          (env.polling.next_interval task.channel (w.clock - since task) false w.polls))
    apply (Call.schedule_next_poll task.task_id (at + interval))
    pure tt

  unfoldable pub on_poll_confirm : Task → UpstreamCallResult → Classification → M P (Unit {0})
  unfolding reschedule
  on_poll_confirm task result c =
      let count = get_num "poll_404_count" 0 task.attributes + 1 in
      if is_404 result.response && ltb count poll_404_confirm_threshold
      then (do
        apply (Call.note_attribute task.task_id (("poll_404_count", num count) ∷ []))
        delay ← backoff env count (5 * second) (60 * second)
        reschedule task (non_zero (some delay)))
      else (do
        at ← gets (λ w. w.clock)
        apply (
            Call.advance task.task_id submit_unknown (some (task.status ∷ [])) (
              set_error_code (some c.error_code)
              ∷ set_error_message (Opt.map env.scrub result.error)
              ∷ set_unknown_since (some at)
              ∷ set_next_poll_at (some at)
              ∷ []))
        enqueue env "compensate:default" "compensate_orphan" task.task_id none)

  unfoldable pub on_poll_classified : Task → UpstreamCallResult → Classification → M P (Unit {0})
  unfolding on_poll_confirm reschedule
  on_poll_classified task result c =
      if is_rate_limited c.error_class
      then (do
        at ← gets (λ w. w.clock)
        set_polls (env.polling.note_rate_limited task.channel result.retry_after at)
        apply (
            Call.mark_failure task.task_id (task.status ∷ []) c.error_code
              (Opt.map env.scrub result.error) true
              (some (at + get_or (non_zero result.retry_after) (5 * second))) none)
        pure tt)
      else if c.channel_fault
      then (do
        at ← gets (λ w. w.clock)
        set_polls (env.polling.note_rate_limited task.channel none at)
        audit AuditKind.channel_fault task.channel
        delay ← backoff env (task.poll_count + 1) (5 * second) (300 * second)
        reschedule task (non_zero (some delay)))
      else if is_confirm c.action
      then on_poll_confirm task result c
      else (do
        apply (
            Call.mark_failure task.task_id (task.status ∷ []) c.error_code
              (Opt.map env.scrub result.error) true none none)
        reschedule task none)

  unfoldable pub on_poll_refused : Task → UpstreamCallResult → M P (Unit {0})
  on_poll_refused task result = do
    at ← gets (λ w. w.clock)
    apply (
        Call.advance task.task_id dead (some (task.status ∷ []))
          (closing upstream_terminal (Opt.map env.scrub result.error) false at))
    finalize_terminal env task dead

  unfoldable pub on_poll_failure : Task → UpstreamCallResult → M P (Unit {0})
  unfolding on_poll_refused on_poll_classified reschedule
  on_poll_failure task result =
      if is_ssrf result.outcome then on_poll_refused task result else elim result.classification [
        | none ↦ reschedule task none
        | some c ↦ on_poll_classified task result c
      ]
