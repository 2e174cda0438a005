-- ===== src/Tasks/Poll/Keeps.antt =====
-- `poll_upstream`, under the slot, keeps every invariant that respects the accesses.
use async_task.Prelude.{ℕ, not, String, Option, none}
use async_task.Domain.Errors.{Classification}
use async_task.Db.Task.{Task}
use async_task.Templates.Schema.{ResolvedTemplate, maps_status}
use async_task.Domain.Status.{status_eq, succeeded, timeout}
use async_task.Upstream.{UpstreamCallResult, is_ok, is_ssrf}
use async_task.Tasks.World.{Env, World, Strategy}
use async_task.Tasks.World.Keeps.{
  Keeps-audit, Keeps-backoff, Keeps, Respects, keeps_rules, Keeps-elim, Keeps-if, Keeps-bind,
}
use async_task.Templates.Expression.{try_extract}
use async_task.Tasks.Runtime.{or_empty_doc, body_of}
use async_task.Tasks.Runtime.Keeps.{healthy-Keeps, terminal-Keeps, success-Keeps}
use async_task.Tasks.Poll.Failure.{
  reschedule, on_poll_confirm, on_poll_classified, on_poll_failure, on_poll_refused,
}
use async_task.Tasks.Poll.Answer.{
  enter_poll_unrecognized, on_running, on_succeeded, on_expired, on_failed, on_native,
  handle_poll_result,
}
use async_task.Tasks.Poll.{poll_with_slot}

module _ {P : Type 0} {env : Env P} {K : World P → Type 0} (k : Respects env K) where
  reschedule-Keeps : (task : Task) (seconds : Option ℕ) → Keeps K (reschedule env task seconds)
  unfolding reschedule
  reschedule-Keeps task seconds = search (keeps_rules, k.applies) depth 16

  confirm-Keeps :
      (task : Task) (result : UpstreamCallResult) (c : Classification)
      → Keeps K (on_poll_confirm env task result c)
  unfolding on_poll_confirm
  confirm-Keeps task result c =
      search (keeps_rules, k.applies, k.enqueues, reschedule-Keeps, Keeps-backoff k) depth 24

  classified-Keeps :
      (task : Task) (result : UpstreamCallResult) (c : Classification)
      → Keeps K (on_poll_classified env task result c)
  unfolding on_poll_classified
  classified-Keeps task result c =
      search
        (
          keeps_rules,
          k.applies,
          k.polls,
          reschedule-Keeps,
          confirm-Keeps,
          Keeps-backoff k,
          Keeps-audit k,
        )
        depth 24

  refused-Keeps :
      (task : Task) (result : UpstreamCallResult) → Keeps K (on_poll_refused env task result)
  unfolding on_poll_refused
  refused-Keeps task result = search (keeps_rules, k.applies, terminal-Keeps k) depth 16

  failure-Keeps :
      (task : Task) (result : UpstreamCallResult) → Keeps K (on_poll_failure env task result)
  unfolding on_poll_failure
  failure-Keeps task result = Keeps-if (is_ssrf result.outcome) (refused-Keeps task result) (
      Keeps-elim result.classification (reschedule-Keeps task none)
        (λ c. classified-Keeps task result c))

  unrecognized-Keeps :
      (task : Task) (result : UpstreamCallResult) (reason : String)
      → Keeps K (enter_poll_unrecognized env task result reason)
  unfolding enter_poll_unrecognized
  unrecognized-Keeps task result reason = search (keeps_rules, k.applies, Keeps-audit k) depth 20

  running-Keeps :
      (task : Task) (t : ResolvedTemplate) (result : UpstreamCallResult) (native : String)
      → Keeps K (on_running env task t result native)
  unfolding on_running
  running-Keeps task t result native = search (keeps_rules, k.applies) depth 20

  succeeded-Keeps :
      (task : Task) (t : ResolvedTemplate) (result : UpstreamCallResult) (native : String)
      → Keeps K (on_succeeded env task t result native)
  unfolding on_succeeded
  succeeded-Keeps task t result native = search (keeps_rules, k.applies, success-Keeps k) depth 20

  expired-Keeps :
      (task : Task) (t : ResolvedTemplate) (result : UpstreamCallResult) (native : String)
      → Keeps K (on_expired env task t result native)
  unfolding on_expired
  expired-Keeps task t result native = search (keeps_rules, k.applies, terminal-Keeps k) depth 20

  failed-Keeps :
      (task : Task) (t : ResolvedTemplate) (s : Strategy) (result : UpstreamCallResult)
      (native : String)
      → Keeps K (on_failed env task t s result native)
  unfolding on_failed
  failed-Keeps task t s result native =
      search (keeps_rules, k.applies, terminal-Keeps k, Keeps-backoff k, Keeps-audit k) depth 24

  native-Keeps :
      (task : Task) (t : ResolvedTemplate) (s : Strategy) (result : UpstreamCallResult)
      (native : String)
      → Keeps K (on_native env task t s result native)
  unfolding on_native
  native-Keeps task t s result native =
      Keeps-elim (maps_status t native) (running-Keeps task t result native) (λ mapped.
        Keeps-if (status_eq mapped succeeded) (succeeded-Keeps task t result native) (
          Keeps-if (status_eq mapped timeout) (expired-Keeps task t result native)
            (failed-Keeps task t s result native)))

  answer-Keeps :
      (task : Task) (t : ResolvedTemplate) (s : Strategy) (result : UpstreamCallResult)
      → Keeps K (handle_poll_result env task t s result)
  unfolding handle_poll_result
  answer-Keeps task t s result = Keeps-if (not (is_ok result.outcome)) (failure-Keeps task result) (
      Keeps-bind (healthy-Keeps k task.channel) (λ u.
        Keeps-elim
          (try_extract env.dump_size env.late t.status_field (or_empty_doc (body_of result)))
          (unrecognized-Keeps task result _) (λ raw. native-Keeps task t s result _)))

  pub poll_with_slot-Keeps :
      (task : Task) (t : ResolvedTemplate) (s : Strategy) (id : String)
      → Keeps K (poll_with_slot env task t s id)
  unfolding poll_with_slot
  poll_with_slot-Keeps task t s id = search (keeps_rules, k.sends, answer-Keeps) depth 12
