-- ===== src/Tasks/Dispatch.antt =====
-- src/async_gateway/tasks/handlers.py, `HANDLERS` and `dispatch_message`: the messages that a worker
-- takes from the bus. The message's `attempt` is read by `store_result` alone.
pub mod Keeps
pub mod Rows
pub mod Slots
pub mod Paid
pub mod Creates
use async_task.Prelude.{ℕ, String, str_eq, Option, if◌then◌else◌}
use async_task.Outcome.{key_error}
use async_task.Tasks.World.{Env, M, raise}
use async_task.Tasks.Submit.{submit_upstream}
use async_task.Tasks.Poll.{poll_upstream}
use async_task.Tasks.Compensate.{compensate_orphan}
use async_task.Tasks.Cancel.{cancel_upstream}
use async_task.Tasks.Store.{finalize_task, store_result}

unfoldable pub dispatch_message : {P : Type 0} → Env P → String → String → Option ℕ → M P (Unit {0})
dispatch_message env name id attempt =
    if str_eq name "submit_upstream"
    then submit_upstream env id
    else if str_eq name "poll_upstream"
    then poll_upstream env id
    else if str_eq name "finalize_task"
    then finalize_task env id
    else if str_eq name "cancel_upstream"
    then cancel_upstream env id
    else if str_eq name "compensate_orphan"
    then compensate_orphan env id
    else if str_eq name "store_result"
    then store_result env id attempt
    else raise key_error
