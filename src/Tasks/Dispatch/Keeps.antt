-- ===== src/Tasks/Dispatch/Keeps.antt =====
-- A dispatched message keeps every invariant that respects the accesses and that the parts of the
-- submit and of the poll under a slot keep.
use async_task.Prelude.{List, ℕ, String, str_eq, Option}
use async_task.Domain.Status.{TaskStatus}
use async_task.Db.Task.{Task}
use async_task.Templates.Schema.{ResolvedTemplate}
use async_task.Tasks.World.{Env, World, Strategy}
use async_task.Tasks.World.Keeps.{Keeps-if, Keeps-raise, Keeps, Respects}
use async_task.Tasks.Submit.{submit_slotted}
use async_task.Tasks.Submit.Paths.{submit-Keeps}
use async_task.Tasks.Poll.{poll_known}
use async_task.Tasks.Poll.Paths.{poll-Keeps}
use async_task.Tasks.Compensate.Keeps.{compensate-Keeps}
use async_task.Tasks.Cancel.Keeps.{cancel-Keeps}
use async_task.Tasks.Store.Keeps.{finalize-Keeps, store-Keeps}
use async_task.Tasks.Dispatch.{dispatch_message}

module _ {P : Type 0} {env : Env P} {K : World P → Type 0} (k : Respects env K)
    (submits : (task : Task) (t : ResolvedTemplate) (s : Strategy) (expected : List TaskStatus)
      → Keeps K (submit_slotted env task t s expected))
    (polls : (task : Task) (t : ResolvedTemplate) (s : Strategy) (id : String)
      → Keeps K (poll_known env task t s id)) where
  pub dispatch-Keeps :
      (name id : String) (attempt : Option ℕ) → Keeps K (dispatch_message env name id attempt)
  unfolding dispatch_message
  dispatch-Keeps name id attempt =
      Keeps-if (str_eq name "submit_upstream") (submit-Keeps k submits id) (
        Keeps-if (str_eq name "poll_upstream") (poll-Keeps k polls id) (
          Keeps-if (str_eq name "finalize_task") (finalize-Keeps k id) (
            Keeps-if (str_eq name "cancel_upstream") (cancel-Keeps k id) (
              Keeps-if (str_eq name "compensate_orphan") (compensate-Keeps k id) (
                Keeps-if (str_eq name "store_result") (store-Keeps k id attempt)
                  (Keeps-raise _))))))
