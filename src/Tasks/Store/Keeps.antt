-- ===== src/Tasks/Store/Keeps.antt =====
-- `finalize_task` and `store_result` keep every invariant that respects the accesses.
use async_task.Prelude.{ℕ, not, is_some, get_or, String, Option, some}
use async_task.Db.Task.{Task}
use async_task.Templates.Schema.{ResolvedTemplate}
use async_task.Tasks.World.{FetchResult, got, fetch_failed, Env, World, ◌>>=◌}
use async_task.Tasks.World.Keeps.{
  Keeps-backoff, Keeps-credential, Keeps-audit, Keeps-bind, Keeps-elim, Keeps-if, Keeps-pure, Keeps,
  Respects, keeps_rules,
}
use async_task.Domain.Transitions.{is_business_terminal}
use async_task.Domain.Status.{succeeded, status_eq}
use async_task.Tasks.Queues.{transfer_queue}
use async_task.Tasks.Runtime.{template_of, is_store}
use async_task.Tasks.Runtime.Keeps.{template_of-Keeps}
use async_task.Tasks.Store.{
  give_up_transfer, settle_fetch, wants_transfer, result_url, on_fetch_failed, transfer, store_task,
  finalize_task, store_result,
}

module _ {P : Type 0} {env : Env P} {K : World P → Type 0} (k : Respects env K) where
  pub finalize-Keeps : (id : String) → Keeps K (finalize_task env id)
  unfolding finalize_task
  finalize-Keeps id = Keeps-bind (k.loads id) (λ found. Keeps-elim found (Keeps-pure tt) (λ task.
      Keeps-if (not (is_business_terminal task.status)) (Keeps-pure tt) (
        Keeps-bind (template_of-Keeps k task) (λ t.
          Keeps-bind
            (Keeps-if (wants_transfer env t.0 task)
              (k.enqueues transfer_queue "store_result" task.task_id (some 1)) (Keeps-pure tt))
            (λ u. k.drops task.task_id)))))

  give_up-Keeps : (task : Task) (detail : String) → Keeps K (give_up_transfer env task detail)
  unfolding give_up_transfer
  give_up-Keeps task detail = search (keeps_rules, k.applies, Keeps-audit k) depth 12

  fetch_failed-Keeps :
      (task : Task) (attempt : ℕ) (detail : String)
      → Keeps K (on_fetch_failed env task attempt detail)
  unfolding on_fetch_failed
  fetch_failed-Keeps task attempt detail =
      search (keeps_rules, k.applies, give_up-Keeps, Keeps-backoff k) depth 16

  settle-Keeps :
      (task : Task) (attempt : ℕ) (answer : FetchResult)
      → Keeps K (settle_fetch env task attempt answer)
  unfolding settle_fetch
  settle-Keeps task attempt (got bytes) =
      search (keeps_rules, k.notes, k.applies, Keeps-audit k) depth 16
  settle-Keeps task attempt (fetch_failed detail) = fetch_failed-Keeps task attempt detail

  transfer-Keeps :
      (task : Task) (attempt : ℕ) (url : String) → Keeps K (transfer env task attempt url)
  unfolding transfer
  transfer-Keeps task attempt url =
      Keeps-bind (Keeps-credential k task.task_id)
        (λ u. Keeps-bind (k.fetches url) (settle-Keeps task attempt))

  store_task-Keeps :
      (task : Task) (attempt : ℕ) (t : ResolvedTemplate) → Keeps K (store_task env task attempt t)
  unfolding store_task
  store_task-Keeps task attempt t = Keeps-if (not (is_store t.result_mode)) (Keeps-pure tt) (
      Keeps-elim (result_url env t task) (give_up-Keeps task _)
        (λ url. transfer-Keeps task attempt url))

  found-Keeps :
      (task : Task) (attempt : ℕ)
      → Keeps K
          (do (template, strategy) ← template_of env task; store_task env task attempt template)
  found-Keeps task attempt =
      Keeps-bind (template_of-Keeps k task) (λ t. store_task-Keeps task attempt t.0)

  pub store-Keeps : (id : String) (attempt : Option ℕ) → Keeps K (store_result env id attempt)
  unfolding store_result
  store-Keeps id attempt = Keeps-bind (k.loads id) (λ found.
      Keeps-elim found (Keeps-pure tt) (λ task.
        Keeps-if (not (status_eq task.status succeeded)) (Keeps-pure tt) (
          Keeps-if (is_some task.result_ref) (Keeps-pure tt) (
            Keeps-if (not env.settings.has_result_store) (Keeps-pure tt)
              (found-Keeps task (get_or attempt 1))))))
