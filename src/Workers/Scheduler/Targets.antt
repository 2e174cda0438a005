-- ===== src/Workers/Scheduler/Targets.antt =====
-- Which tasks the scheduler sends to which handler, and when.
use mathlib.Core.List.{Memᴰ}
use async_task.Prelude.{
  ℕ, ◌≤◌, Bool, true, false, ◌&&◌, ◌||◌, String, Option, none, some, is_some, All, ◌≡◌, refl,
  if◌then◌else◌, ◌⊎◌,
}
use async_task.Domain.Status.{TaskStatus, accepted, mem_status, status_eq}
use async_task.Db.Task.{Task, Table}
use async_task.Db.Dao.Writes.{unset, is_due}
use async_task.Db.Dao.Queries.{
  dispatchable, may_dispatch, select, order_by, poll_time, due_for_dispatch,
}
use async_task.Db.Dao.Queries.Order.{
  select_sound, select_complete, take-All, order_by-All, order_by-Mem, order_by-Ordered, take-first,
}
use async_task.Workers.Scheduler.{dispatch_by_status, handler_of}

abbrev resubmit_if : Bool → Option String
resubmit_if free = if free then some "submit_upstream" else none

handler_case :
    (s : TaskStatus) (free : Bool)
    → is_some (elim (dispatch_by_status s) [
      | some name ↦ some name
      | none ↦ resubmit_if (status_eq s accepted && free)
    ])
      ≡ (mem_status s dispatchable || (status_eq s accepted && free))
unfolding dispatch_by_status
handler_case accepted true = refl
handler_case accepted false = refl
handler_case _ free = refl

-- The table of handlers and the query agree: there is a handler for a row exactly when the query
-- may list it, so no listed row is skipped for want of a handler, and in particular no accepted
-- task whose submit intent is set has one.
handler_iff_listed : (r : Task) → is_some (handler_of r) ≡ may_dispatch r
unfolding handler_of
handler_iff_listed r = handler_case r.status (unset r.submit_started_at)

abbrev pub due_test : ℕ → Task → Bool
due_test now r = may_dispatch r && is_due now r.next_poll_at

-- A batch holds nothing but rows that may be dispatched and are due, and a row of the table that
-- may be dispatched and is due is in the batch, or no row of the batch is due later than it.
pub batch_oldest_first :
    (limit now : ℕ) (t : Table) (task : Task)
    → Memᴰ task t
    → due_test now task ≡ true
    → All (λ r. due_test now r ≡ true) (due_for_dispatch limit now t)
      × (Memᴰ task (due_for_dispatch limit now t)
          ⊎ All (λ r. poll_time r ≤ poll_time task) (due_for_dispatch limit now t))
unfolding due_for_dispatch
batch_oldest_first limit now t task m due =
    let listed = select (due_test now) t in
    (
      take-All _ limit (order_by poll_time listed)
          (order_by-All poll_time _ listed (select_sound (due_test now) t)),
      take-first poll_time limit (order_by poll_time listed) (order_by-Ordered poll_time listed)
          (order_by-Mem poll_time listed (select_complete (due_test now) m due)),
    )
