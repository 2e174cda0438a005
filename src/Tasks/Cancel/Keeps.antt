-- ===== src/Tasks/Cancel/Keeps.antt =====
-- `cancel_upstream` keeps every invariant that respects the accesses.
use async_task.Prelude.{not, String}
use async_task.Db.Task.{Task}
use async_task.Templates.Schema.{ResolvedTemplate}
use async_task.Tasks.World.{Env, World}
use async_task.Tasks.World.Keeps.{
  Keeps-backoff, Keeps-credential, Keeps-if, Keeps-bind, Keeps-elim, Keeps-pure, Keeps, Respects,
  keeps_rules,
}
use async_task.Domain.Transitions.{is_business_terminal}
use async_task.Tasks.Runtime.{non_empty}
use async_task.Tasks.Runtime.Keeps.{self_later-Keeps, template_of-Keeps, terminal-Keeps}
use async_task.Tasks.Cancel.{degrade_cancel, cancel_before_create, cancel_created, cancel_upstream}

module _ {P : Type 0} {env : Env P} {K : World P → Type 0} (k : Respects env K) where
  degrade-Keeps : (task : Task) → Keeps K (degrade_cancel env task)
  unfolding degrade_cancel
  degrade-Keeps task =
      search (keeps_rules, k.applies, terminal-Keeps k, self_later-Keeps k) depth 20

  before-Keeps : (task : Task) → Keeps K (cancel_before_create env task)
  unfolding cancel_before_create
  before-Keeps task = search (keeps_rules, k.applies, terminal-Keeps k) depth 20

  created-Keeps :
      (task : Task) (t : ResolvedTemplate) (id : String) → Keeps K (cancel_created env task t id)
  unfolding cancel_created
  created-Keeps task t id =
      search
        (
          keeps_rules,
          k.applies,
          k.sends,
          Keeps-credential k,
          terminal-Keeps k,
          self_later-Keeps k,
          Keeps-backoff k,
        )
        depth 24

  pub cancel-Keeps : (id : String) → Keeps K (cancel_upstream env id)
  unfolding cancel_upstream
  cancel-Keeps id = Keeps-bind (k.loads id) (λ found. Keeps-elim found (Keeps-pure tt) (λ task.
      Keeps-if (is_business_terminal task.status) (Keeps-pure tt) (
        Keeps-bind (template_of-Keeps k task) (λ t.
          Keeps-if (not t.0.capabilities.cancel) (degrade-Keeps task) (
            Keeps-elim (non_empty task.upstream_task_id) (before-Keeps task)
              (λ id. created-Keeps task t.0 id))))))
