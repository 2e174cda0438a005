-- ===== src/Gateway/Inline/Safe.antt =====
-- What the submit within a request does: its creates, the slots and the table.
use async_task.Prelude.{
  ◌+◌, ◌≤◌, not, Bool, true, false, String, some, ◌≡◌, refl, arith, if◌then◌else◌,
}
use async_task.Domain.Errors.{submit}
use async_task.Db.Task.{Task}
use async_task.Db.Dao.Cas.{get}
use async_task.Db.Dao.Calls.{Call}
use async_task.Db.Dao.Rows.{RowStep, TableStep-refl, get-TableStep}
use async_task.Infra.Limiter.Counters.{count}
use async_task.Templates.Schema.{ResolvedTemplate}
use async_task.Tasks.World.{create, Env, World, Strategy, ◌>>=◌}
use async_task.Tasks.World.Actions.{apply}
use async_task.Tasks.World.Keeps.{
  Keeps-bind, Keeps-elim, Keeps-pure, Keeps-if, Keeps-finally, Keeps, Respects,
}
use async_task.Tasks.World.Turns.{
  Turns, Turns-first, Turns-finally, Turns-keep, Turns-then, Turns-if,
}
use async_task.Tasks.Submit.Keeps.{submit_result-Keeps}
use async_task.Tasks.Dispatch.Paid.{
  is_ask, is_win, tally, Paid, Paid-Respects, take-Keeps, give-Keeps,
}
use async_task.Tasks.Dispatch.Creates.{continue-After, Ready, mark-After, spend, waste}
use async_task.Tasks.Dispatch.Slots as Slots
use async_task.Tasks.Dispatch.Rows as Rows
use async_task.Tasks.Dispatch.Rows.{ArePlain, Follows, Follows-Respects}
use async_task.Gateway.Inline.{
  Caller, send_inline, inline_slotted, inline_claimed, taken_over, inline_submit,
}
use async_task.Gateway.Inline.Keeps.{
  leave-Keeps, taken-Keeps, send-Keeps, claimed-Keeps, claimed-Turns,
}

module _ {P : Type 0} (env : Env P) (start : World P) (c : Caller) (t : ResolvedTemplate)
    (s : Strategy) where
  send-Turns : Turns (Paid env start 1) (Paid env start 0) (send_inline env c t s)
  unfolding send_inline
  send-Turns = Turns-then (waste env start) ((Paid-Respects env start 1).loads c.task_id) (λ row.
      Turns-first (record { at = λ w q. spend env start t (create c.body _) submit w q })
        (λ result. Keeps-bind ((Paid-Respects env start 0).loads c.task_id) (λ found.
          Keeps-elim found (Keeps-pure _) (λ task.
            Keeps-bind (submit_result-Keeps (Paid-Respects env start 0) task t s result)
              (λ u. Keeps-pure _)))))

  slotted-Turns : Turns (Paid env start 1) (Paid env start 0) (inline_slotted env c t s)
  unfolding inline_slotted
  slotted-Turns = Turns-then (waste env start) (take-Keeps env start 1 c.channel c.tenant) (λ d.
      Turns-if (not d.granted)
        (Turns-keep (waste env start) (leave-Keeps (Paid-Respects env start 1) c d.retry_after))
        (Turns-finally send-Turns (give-Keeps env start 0 c.channel c.tenant)))

  branch-Paid :
      (claimed : Bool) (w : World P)
      → Ready env start claimed w
      → Paid env start 0 ((if not claimed then taken_over env c else inline_claimed env c t s) w).1
  branch-Paid false w q = (taken-Keeps (Paid-Respects env start 0) c).at w q
  branch-Paid true w q = (claimed-Turns (Paid-Respects env start 0) c t s slotted-Turns).at w q

  inline-Paid : Keeps (Paid env start 0) (inline_submit env c t s)
  unfolding inline_submit ◌>>=◌
  inline-Paid = record {
    at = λ w q.
        continue-After (Ready env start) (Paid env start 0)
          (apply (Call.mark_submit_intent c.task_id) w) _ (mark-After env start c.task_id w q)
          branch-Paid;
  }

-- What the submit keeps, where its part under the slot does.
inline-Keeps :
    {P : Type 0} {env : Env P} {K : World P → Type 0} (k : Respects env K) (c : Caller)
    (t : ResolvedTemplate) (s : Strategy)
    → Keeps K (inline_slotted env c t s)
    → Keeps K (inline_submit env c t s)
unfolding inline_submit
inline-Keeps k c t s h =
    Keeps-bind (k.applies _ refl)
      (λ claimed. Keeps-if (not claimed) (taken-Keeps k c) (claimed-Keeps k c t s h))

module _ {P : Type 0} (env : Env P) (c : Caller) (t : ResolvedTemplate) (s : Strategy) where
  slotted-Same : (start : World P) → Keeps (Slots.Same env start.slots) (inline_slotted env c t s)
  unfolding inline_slotted
  slotted-Same start =
      Slots.slotted env start.slots c.channel c.tenant
        (λ d. leave-Keeps (Slots.Same-Respects env start.slots) c d.retry_after)
        (λ z.
          send-Keeps (Slots.OnSlots-Respects env (λ d. d ≡ z))
            (λ t body cb x. Slots.send-Keeps env (λ d. d ≡ z) t (create body cb) x) c t s)

  slotted-Follows : (start : World P) → Keeps (Follows env start.table) (inline_slotted env c t s)
  unfolding inline_slotted
  slotted-Follows start = Keeps-bind (Rows.take-Keeps env start.table c.channel c.tenant) (λ d.
      Keeps-if (not d.granted) (leave-Keeps (Follows-Respects env start.table) c d.retry_after) (
        Keeps-finally
          (send-Keeps (Follows-Respects env start.table)
            (λ t body cb x. Rows.send-Keeps env start.table t (create body cb) x) c t s)
          (Rows.give-Keeps env start.table c.channel c.tenant)))

  -- The submit within a request, whatever others do to the table in between and whether it answers
  -- or raises: it asks the upstream to create at most as often as it wins a submit intent; every
  -- counter of the slots is afterwards what it was; and, where the others' calls do not pass
  -- `result_ref` to `advance`, a row stays in the table under its key, its status moves along the
  -- whitelist, its version does not fall, a requested cancellation and a stored result stay.
  pub inline_safe :
      (key : String) (w : World P) {r : Task}
      → ArePlain w.others
      → get key w.table ≡ some r
      → (tally is_ask (inline_submit env c t s w).1.trace + tally is_win w.trace
          ≤ tally is_win (inline_submit env c t s w).1.trace + tally is_ask w.trace)
        × ((slot : String) → count slot (inline_submit env c t s w).1.slots ≡ count slot w.slots)
        × ((x : Task) × (get key (inline_submit env c t s w).1.table ≡ some x) × RowStep r x)
  inline_safe key w p e =
      let rows =
        (inline-Keeps (Follows-Respects env w.table) c t s (slotted-Follows w)).at w
          (TableStep-refl w.table, p) in
      (
        omega (arith, (inline-Paid env w c t s).at w (omega arith)),
        (inline-Keeps (Slots.Same-Respects env w.slots) c t s (slotted-Same w)).at w (λ k. refl),
        get-TableStep key w.table (inline_submit env c t s w).1.table rows.0 e,
      )
