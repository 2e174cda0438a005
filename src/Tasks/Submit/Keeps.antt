-- ===== src/Tasks/Submit/Keeps.antt =====
-- What follows a create keeps every invariant that respects the accesses.
use async_task.Prelude.{refl, Bool, String, Option}
use async_task.Domain.Status.{ErrorCode}
use async_task.Domain.Errors.{Classification}
use async_task.Db.Json.{Json}
use async_task.Db.Task.{Task}
use async_task.Templates.Schema.{ResolvedTemplate}
use async_task.Upstream.{UpstreamCallResult}
use async_task.Tasks.World.{Env, World, Strategy}
use async_task.Tasks.World.Keeps.{
  Keeps-audit, Keeps-backoff, Keeps, Respects, keeps_rules, Keeps-elim, Keeps-raise, Keeps-pure,
  Keeps-if,
}
use async_task.Tasks.Runtime.{body_of}
use async_task.Tasks.Runtime.Keeps.{healthy-Keeps, terminal-Keeps, release-Keeps}
use async_task.Tasks.Submit.Result.{
  on_missing_id, close_dead, archive_response, after_create, on_create_ok, on_rate_limited,
  on_channel_fault, on_safe_retry, on_create_error, handle_submit_result,
}

module _ {P : Type 0} {env : Env P} {K : World P → Type 0} (k : Respects env K) where
  close_dead-Keeps :
      (task : Task) (code : ErrorCode) (message : Option String) (retryable : Bool)
      → Keeps K (close_dead env task code message retryable)
  unfolding close_dead
  close_dead-Keeps task code message retryable =
      search (keeps_rules, k.applies, terminal-Keeps k) depth 20

  archive-Keeps :
      (task : Task) (result : UpstreamCallResult) (payload : Option Json)
      → Keeps K (archive_response env task result payload)
  archive-Keeps task result payload =
      Keeps-elim result.response (Keeps-pure _) (λ up. k.notes _ refl)

  after_create-Keeps :
      (task : Task) (t : ResolvedTemplate) (result : UpstreamCallResult) (payload : Option Json)
      (id : Json)
      → Keeps K (after_create env task t result payload id)
  unfolding after_create
  after_create-Keeps task t result payload id =
      search (keeps_rules, k.applies, k.enqueues, archive-Keeps, healthy-Keeps k) depth 30

  on_missing_id-Keeps : (task : Task) (t : ResolvedTemplate) → Keeps K (on_missing_id env task t)
  unfolding on_missing_id
  on_missing_id-Keeps task t = search (keeps_rules, k.applies, k.enqueues) depth 20

  on_create_ok-Keeps :
      (task : Task) (t : ResolvedTemplate) (result : UpstreamCallResult)
      → Keeps K (on_create_ok env task t result)
  unfolding on_create_ok
  on_create_ok-Keeps task t result =
      Keeps-elim _ (on_missing_id-Keeps task t)
        (λ id. after_create-Keeps task t result (body_of result) id)

  on_rate_limited-Keeps :
      (task : Task) (result : UpstreamCallResult) (c : Classification)
      → Keeps K (on_rate_limited env task result c)
  unfolding on_rate_limited
  on_rate_limited-Keeps task result c = search (keeps_rules, k.polls, release-Keeps k) depth 20

  on_channel_fault-Keeps :
      (task : Task) (result : UpstreamCallResult) (c : Classification)
      → Keeps K (on_channel_fault env task result c)
  unfolding on_channel_fault
  on_channel_fault-Keeps task result c =
      search (keeps_rules, k.polls, k.applies, release-Keeps k, Keeps-backoff k, Keeps-audit k)
        depth 24

  on_safe_retry-Keeps :
      (task : Task) (s : Strategy) (result : UpstreamCallResult) (c : Classification)
      → Keeps K (on_safe_retry env task s result c)
  unfolding on_safe_retry
  on_safe_retry-Keeps task s result c =
      search (keeps_rules, close_dead-Keeps, k.applies, Keeps-backoff k) depth 24

  on_create_error-Keeps :
      (task : Task) (s : Strategy) (result : UpstreamCallResult) (c : Classification)
      → Keeps K (on_create_error env task s result c)
  unfolding on_create_error
  on_create_error-Keeps task s result c =
      search
        (
          keeps_rules, on_rate_limited-Keeps, on_channel_fault-Keeps, close_dead-Keeps,
          on_safe_retry-Keeps, k.applies, k.enqueues,
        )
        depth 24

  pub submit_result-Keeps :
      (task : Task) (t : ResolvedTemplate) (s : Strategy) (result : UpstreamCallResult)
      → Keeps K (handle_submit_result env task t s result)
  unfolding handle_submit_result
  submit_result-Keeps task t s result = Keeps-if _ (close_dead-Keeps task _ _ _) (
      Keeps-if _ (on_create_ok-Keeps task t result) (
        Keeps-elim result.classification (Keeps-raise _)
          (λ c. on_create_error-Keeps task s result c)))
