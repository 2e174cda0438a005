-- ===== src/Gateway/Inline/Keeps.antt =====
-- Every path of the submit within a request keeps an invariant that respects the accesses and that
-- the part under the slot keeps.
use async_task.Prelude.{ℕ, String, Option}
use async_task.Domain.Errors.{Context}
use async_task.Db.Json.{Json}
use async_task.Db.Task.{Task}
use async_task.Templates.Schema.{ResolvedTemplate}
use async_task.Upstream.{UpstreamCallResult}
use async_task.Tasks.World.{create, Env, World, Strategy}
use async_task.Tasks.World.Actions.{send}
use async_task.Tasks.World.Keeps.{Keeps-bind, Keeps-elim, Keeps-pure, Keeps, Respects, keeps_rules}
use async_task.Tasks.World.Turns.{Turns, Turns-first}
use async_task.Tasks.Submit.Keeps.{submit_result-Keeps}
use async_task.Gateway.Inline.{
  Caller, Sent, early, sent, answer_row, answer_sent, send_inline, leave_to_workers, inline_slotted,
  taken_over, inline_claimed,
}

module _ {P : Type 0} {env : Env P} {K : World P → Type 0} (k : Respects env K) where
  row-Keeps :
      (c : Caller) (t : ResolvedTemplate) (result : UpstreamCallResult) (task : Task)
      → Keeps K (answer_row env c t result task)
  unfolding answer_row
  row-Keeps c t result task = search (keeps_rules, k.notes, k.enqueues) depth 20

  answer-Keeps : (c : Caller) (t : ResolvedTemplate) (s : Sent) → Keeps K (answer_sent env c t s)
  unfolding answer_sent
  answer-Keeps c t (early reply) = Keeps-pure reply
  answer-Keeps c t (sent result) =
      Keeps-bind (k.loads c.task_id)
        (λ found. Keeps-elim found (Keeps-pure _) (row-Keeps c t result))

  pub leave-Keeps : (c : Caller) (retry : Option ℕ) → Keeps K (leave_to_workers env c retry)
  unfolding leave_to_workers
  leave-Keeps c retry = search (keeps_rules, k.applies, k.enqueues) depth 20

  pub taken-Keeps : (c : Caller) → Keeps K (taken_over env c)
  unfolding taken_over
  taken-Keeps c = search (keeps_rules, k.enqueues) depth 20

  -- The part under the slot, where a create keeps the invariant too.
  pub send-Keeps :
      ((t : ResolvedTemplate) (body : Json) (callback : Option String) (x : Context)
        → Keeps K (send env t (create body callback) x))
      → (c : Caller) (t : ResolvedTemplate) (s : Strategy) → Keeps K (send_inline env c t s)
  unfolding send_inline
  send-Keeps creates c t s = Keeps-bind (k.loads c.task_id) (λ row.
      Keeps-bind (creates t c.body _ _) (λ result. Keeps-bind (k.loads c.task_id) (λ found.
        Keeps-elim found (Keeps-pure _)
          (λ task. Keeps-bind (submit_result-Keeps k task t s result) (λ u. Keeps-pure _)))))

  pub claimed-Keeps :
      (c : Caller) (t : ResolvedTemplate) (s : Strategy)
      → Keeps K (inline_slotted env c t s)
      → Keeps K (inline_claimed env c t s)
  unfolding inline_claimed
  claimed-Keeps c t s h = Keeps-bind h (answer-Keeps c t)

module _ {P : Type 0} {env : Env P} {K L : World P → Type 0} (k : Respects env L) where
  pub claimed-Turns :
      (c : Caller) (t : ResolvedTemplate) (s : Strategy)
      → Turns K L (inline_slotted env c t s)
      → Turns K L (inline_claimed env c t s)
  unfolding inline_claimed
  claimed-Turns c t s h = Turns-first h (answer-Keeps k c t)
