-- ===== src/Tasks/Submit/Paths.antt =====
-- Every path of `submit_upstream` keeps an invariant that respects the accesses and that the part
-- under the slot keeps.
use async_task.Prelude.{not, is_some, String, Option, none, some, List, [], ◌∷◌, refl}
use async_task.Domain.Status.{TaskStatus}
use async_task.Domain.Errors.{Context}
use async_task.Db.Json.{Json}
use async_task.Db.Task.{Task}
use async_task.Templates.Schema.{ResolvedTemplate}
use async_task.Tasks.World.{create, Env, World, Strategy}
use async_task.Tasks.World.Actions.{send}
use async_task.Tasks.World.Keeps.{
  Keeps-credential, Keeps-bind, Keeps-gets, Keeps-elim, Keeps-pure, Keeps-if, Keeps, Respects,
  keeps_rules,
}
use async_task.Tasks.Runtime.{is_past, load_create_body, non_empty}
use async_task.Tasks.Runtime.Keeps.{template_of-Keeps, terminal-Keeps}
use async_task.Tasks.Submit.Keeps.{submit_result-Keeps}
use async_task.Tasks.Submit.{
  close_without_body, close_without_credential, send_create, submit_loaded, submit_with_slot,
  submit_slotted, submit_past_checks, submit_expired, submit_cancelled, submit_task,
  submit_upstream,
}

module _ {P : Type 0} {env : Env P} {K : World P → Type 0} (k : Respects env K) where
  pub no_body-Keeps :
      (task : Task) (expected : List TaskStatus) → Keeps K (close_without_body env task expected)
  unfolding close_without_body
  no_body-Keeps task expected = search (keeps_rules, k.applies, terminal-Keeps k) depth 20

  loaded-Keeps :
      ((t : ResolvedTemplate) (body : Json) (callback : Option String) (c : Context)
        → Keeps K (send env t (create body callback) c))
      → (task : Task) (t : ResolvedTemplate) (s : Strategy) (expected : List TaskStatus)
        (body : Option Json)
      → Keeps K (submit_loaded env task t s expected body)
  unfolding submit_loaded send_create
  loaded-Keeps creates task t s expected none = no_body-Keeps task expected
  loaded-Keeps creates task t s expected (some body) =
      Keeps-bind (creates t body _ _) (λ result. submit_result-Keeps k task t s result)

  -- The part under the slot, where a create keeps the invariant too.
  pub with_slot-Keeps :
      ((t : ResolvedTemplate) (body : Json) (callback : Option String) (c : Context)
        → Keeps K (send env t (create body callback) c))
      → (task : Task) (t : ResolvedTemplate) (s : Strategy) (expected : List TaskStatus)
      → Keeps K (submit_with_slot env task t s expected)
  unfolding submit_with_slot
  with_slot-Keeps creates task t s expected = Keeps-bind (k.applies _ refl) (λ won.
      Keeps-if (not won) (Keeps-pure tt)
        (loaded-Keeps creates task t s expected (load_create_body env task)))

  pub no_credential-Keeps :
      (task : Task) (expected : List TaskStatus)
      → Keeps K (close_without_credential env task expected)
  unfolding close_without_credential
  no_credential-Keeps task expected = search (keeps_rules, k.applies, terminal-Keeps k) depth 20

  pub expired-Keeps :
      (task : Task) (expected : List TaskStatus) → Keeps K (submit_expired env task expected)
  unfolding submit_expired
  expired-Keeps task expected = search (keeps_rules, k.applies, terminal-Keeps k) depth 20

  pub cancelled-Keeps :
      (task : Task) (expected : List TaskStatus) → Keeps K (submit_cancelled env task expected)
  unfolding submit_cancelled
  cancelled-Keeps task expected = search (keeps_rules, k.applies, terminal-Keeps k) depth 20

  module _
      (slotted : (task : Task) (t : ResolvedTemplate) (s : Strategy) (expected : List TaskStatus)
        → Keeps K (submit_slotted env task t s expected)) where
    past_checks-Keeps :
        (task : Task) (t : ResolvedTemplate) (s : Strategy) (expected : List TaskStatus)
        → Keeps K (submit_past_checks env task t s expected)
    unfolding submit_past_checks
    past_checks-Keeps task t s expected = Keeps-bind (Keeps-credential k task.task_id) (λ bearer.
        Keeps-if (not (is_some (non_empty bearer))) (no_credential-Keeps task expected)
          (slotted task t s expected))

    task-Keeps : (task : Task) → Keeps K (submit_task env task)
    unfolding submit_task
    task-Keeps task = Keeps-bind (template_of-Keeps k task) (λ t. Keeps-bind (Keeps-gets _) (λ at.
        Keeps-if (is_past at task.deadline_at) (expired-Keeps task (task.status ∷ [])) (
          Keeps-if task.cancel_requested (cancelled-Keeps task (task.status ∷ []))
            (past_checks-Keeps task t.0 t.1 (task.status ∷ [])))))

    pub submit-Keeps : (id : String) → Keeps K (submit_upstream env id)
    unfolding submit_upstream
    submit-Keeps id = Keeps-bind (k.loads id) (λ found.
        Keeps-elim found (Keeps-pure tt) (λ task. Keeps-if _ (Keeps-pure tt) (task-Keeps task)))
