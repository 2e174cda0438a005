-- ===== src/Tasks/Runtime/Keeps.antt =====
-- The shared operations keep every invariant that respects the accesses.
use async_task.Prelude.{ℕ, Bool, String, Option, List}
use async_task.Domain.Status.{TaskStatus, ErrorCode}
use async_task.Db.Task.{Task}
use async_task.Templates.Schema.{ResolvedTemplate}
use async_task.Tasks.World.{Env, World}
use async_task.Tasks.World.Keeps.{
  Keeps-pure, Keeps-raise, Keeps-elim, Keeps-audit, Keeps, Respects, keeps_rules,
}
use async_task.Tasks.Runtime.{
  enqueue_self_later, note_channel_healthy, template_of, terminal_sample, finalize_success,
  finalize_terminal, release_for_upstream_wait,
}

module _ {P : Type 0} {env : Env P} {K : World P → Type 0} (k : Respects env K) where
  pub self_later-Keeps : (id : String) (delay : ℕ) → Keeps K (enqueue_self_later {P = P} id delay)
  unfolding enqueue_self_later
  self_later-Keeps id delay = search (keeps_rules, k.applies) depth 12

  pub healthy-Keeps : (channel : String) → Keeps K (note_channel_healthy env channel)
  unfolding note_channel_healthy
  healthy-Keeps channel = search (keeps_rules, k.polls) depth 12

  pub template_of-Keeps : (task : Task) → Keeps K (template_of env task)
  unfolding template_of
  template_of-Keeps task =
      Keeps-elim (env.template task.template_alias task.template_version) (Keeps-raise _)
        (λ t. Keeps-pure _)

  pub sample-Keeps : (task : Task) → Keeps K (terminal_sample env task)
  unfolding terminal_sample
  sample-Keeps task = search (keeps_rules, k.polls) depth 12

  pub success-Keeps : (task : Task) (t : ResolvedTemplate) → Keeps K (finalize_success env task t)
  unfolding finalize_success
  success-Keeps task t =
      search (keeps_rules, sample-Keeps, k.enqueues, k.drops, Keeps-audit k) depth 20

  pub terminal-Keeps : (task : Task) (s : TaskStatus) → Keeps K (finalize_terminal env task s)
  unfolding finalize_terminal
  terminal-Keeps task s = search (keeps_rules, sample-Keeps, k.drops, Keeps-audit k) depth 20

  pub release-Keeps :
      (task : Task) (expected : List TaskStatus) (delay : ℕ) (code : ErrorCode)
      (message : Option String) (decrement : Bool)
      → Keeps K (release_for_upstream_wait env task expected delay code message decrement)
  unfolding release_for_upstream_wait
  release-Keeps task expected delay code message decrement =
      search (keeps_rules, k.applies) depth 20
