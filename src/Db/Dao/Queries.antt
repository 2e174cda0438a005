-- ===== src/Db/Dao/Queries.antt =====
-- src/async_gateway/db/dao.py: the queries of the scheduler and of the inspector. A query is a
-- filter, an order where the source asks for one, and a limit. Rows that the order leaves equal,
-- and all rows where there is no order, stand as in the table; a database may return them in any
-- order.
pub mod Order
use async_task.Prelude.{
  ℕ, ◌+◌, Bool, false, ◌&&◌, ◌||◌, String, str_eq, Option, none, some, is_some, get_or, List, [],
  ◌∷◌, leb, take, if◌then◌else◌,
}
use async_task.Domain.Status.{
  TaskStatus, accepted, upstream_submitted, in_progress, submit_unknown, poll_unrecognized, failed,
  succeeded, mem_status, status_eq, unknown_states,
}
use async_task.Db.Task.{Task, Table}
use async_task.Db.Dao.Cas.{active_statuses}
use async_task.Db.Dao.Writes.{unset, is_due}
use async_task.Infra.Limiter.Counters.{Counts, count, put}

-- `WHERE`
unfoldable pub select : (Task → Bool) → Table → List Task
select p [] = []
select p (r ∷ t) = let rest = select p t in if p r then r ∷ rest else rest

-- `ORDER BY`
unfoldable pub place : (Task → ℕ) → Task → List Task → List Task
place key r [] = r ∷ []
place key r (s ∷ rest) =
    let later = s ∷ place key r rest in if leb (key r) (key s) then r ∷ s ∷ rest else later

unfoldable pub order_by : (Task → ℕ) → List Task → List Task
unfolding place
order_by key [] = []
order_by key (r ∷ rest) = place key r (order_by key rest)

abbrev pub poll_time : Task → ℕ
poll_time r = get_or r.next_poll_at 0

-- The keys of DISPATCH_BY_STATUS.
abbrev pub dispatchable : List TaskStatus
dispatchable = upstream_submitted ∷ in_progress ∷ poll_unrecognized ∷ submit_unknown ∷ failed ∷ []

abbrev pub may_dispatch : Task → Bool
may_dispatch r =
    mem_status r.status dispatchable || (status_eq r.status accepted && unset r.submit_started_at)

unfoldable pub due_for_dispatch : ℕ → ℕ → Table → List Task
unfolding select order_by
due_for_dispatch limit now t =
    take limit (order_by poll_time (select (λ r. may_dispatch r && is_due now r.next_poll_at) t))

-- `updated_at <= now - stall`, with the subtraction on the other side.
unfoldable pub stalled_accepted : ℕ → ℕ → ℕ → Table → List Task
unfolding select order_by
stalled_accepted stall limit now t = take limit (
    order_by (λ r. r.created_at)
      (select (λ r. status_eq r.status accepted && leb (r.updated_at + stall) now) t))

unfoldable pub unknown_tasks : ℕ → ℕ → Table → List Task
unfolding select order_by
unknown_tasks limit now t = take limit (
    order_by poll_time
      (select (λ r. mem_status r.status unknown_states && is_due now r.next_poll_at) t))

abbrev pub is_past_by : ℕ → ℕ → Option ℕ → Bool
is_past_by span now none = false
is_past_by span now (some at) = leb (at + span) now

unfoldable pub over_lifetime_unknown : ℕ → ℕ → ℕ → Table → List Task
unfolding select
over_lifetime_unknown lifetime limit now t =
    take limit (
      select (λ r. mem_status r.status unknown_states && is_past_by lifetime now r.unknown_since) t)

unfoldable pub overdue_deadlines : ℕ → ℕ → Table → List Task
unfolding select
overdue_deadlines limit now t =
    take limit (select (λ r. mem_status r.status active_statuses && is_due now r.deadline_at) t)

unfoldable pub pending_transfers : ℕ → ℕ → Table → List Task
unfolding select order_by
pending_transfers limit now t = take limit (
    order_by poll_time (
      select
        (λ r. status_eq r.status succeeded && (unset r.result_ref && is_due now r.next_poll_at)) t))

-- With the default statuses.
unfoldable pub stalled_active : ℕ → ℕ → ℕ → Table → List Task
unfolding select
stalled_active stall limit now t = take limit (
    select
      (λ r.
        mem_status r.status (upstream_submitted ∷ in_progress ∷ [])
        && ((unset r.next_poll_at || is_past_by stall now r.next_poll_at)
            && leb (r.updated_at + stall) now))
      t)

-- `GROUP BY channel` with `count(*)`
unfoldable pub count_by_channel : (Task → Bool) → Table → Counts
unfolding count put
count_by_channel p [] = []
count_by_channel p (r ∷ t) =
    let rest = count_by_channel p t in
    if p r then put r.channel (count r.channel rest + 1) rest else rest

unfoldable pub count_unknown_by_channel : Table → Counts
unfolding count_by_channel
count_unknown_by_channel t = count_by_channel (λ r. mem_status r.status unknown_states) t

unfoldable pub active_counts_by_channel : Table → Counts
unfolding count_by_channel
active_counts_by_channel t = count_by_channel (λ r. mem_status r.status active_statuses) t
