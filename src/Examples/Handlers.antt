-- ===== src/Examples/Handlers.antt =====
-- The theorems on the handlers at concrete inputs.
use async_task.Prelude.{◌+◌, ◌≤◌, false, ◌∷◌, none, some, ◌≡◌, refl}
use async_task.Db.Task.{Task}
use async_task.Db.Dao.Cas.{get}
use async_task.Db.Dao.Rows.{RowStep}
use async_task.Infra.Limiter.Counters.{count}
use async_task.Tasks.World.{Env, World}
use async_task.Tasks.Dispatch.{dispatch_message}
use async_task.Tasks.Dispatch.Paid.{tally, is_ask, is_win}
use async_task.Tasks.Dispatch.Creates.{dispatch_creates_once}
use async_task.Tasks.Dispatch.Rows.{dispatch_follows_whitelist}
use async_task.Tasks.Dispatch.Slots.{dispatch_keeps_slots}
use async_task.Domain.Status.{cancelled, poll_unrecognized}
use async_task.Upstream.{Wire}
use async_task.Tasks.Runtime.Exits.{Exits}
use async_task.Tasks.Cancel.{cancel_created}
use async_task.Tasks.Cancel.Exits.{cancel-Exits}
use async_task.Examples.Samples.{template, answering, created_body, start, new_task}

abbrev env : Env (Unit {0})
env = answering 200 created_body

abbrev after : World (Unit {0})
after = (dispatch_message env "submit_upstream" "t1" none start).1

dispatch_creates_once_example :
    tally is_ask after.trace + tally is_win start.trace
    ≤ tally is_win after.trace + tally is_ask start.trace
dispatch_creates_once_example = dispatch_creates_once env "submit_upstream" "t1" none start

dispatch_follows_whitelist_example :
    (s : Task) × (get "t1" after.table ≡ some s) × RowStep new_task s
unfolding get
dispatch_follows_whitelist_example =
    dispatch_follows_whitelist env "submit_upstream" "t1" "t1" none start {r = new_task} tt refl

dispatch_keeps_slots_example : count "conc:{video}" after.slots ≡ count "conc:{video}" start.slots
dispatch_keeps_slots_example =
    dispatch_keeps_slots env "submit_upstream" "t1" "conc:{video}" none start

-- A task whose poll was not recognized.
abbrev odd_task : Task
odd_task = record new_task { task_id = "t6"; status = poll_unrecognized }

abbrev odd : World (Unit {0})
odd = record start { table = odd_task ∷ start.table }

-- It has an upstream id, whose address is refused.
abbrev created_task : Task
created_task = record odd_task { upstream_task_id = some "u9" }

abbrev created : World (Unit {0})
created = record odd { table = created_task ∷ start.table }

abbrev refusing : Env (Unit {0})
refusing = record env { wire = λ n request. Wire.refused "private address" }

cancel-Exits_example :
    Exits false odd_task cancelled odd.table (cancel_created env odd_task template "u9" odd)
unfolding get async_task.Domain.Transitions.is_business_terminal async_task.Upstream.call_result
cancel-Exits_example = cancel-Exits env odd_task template "u9" odd refl refl refl refl refl
