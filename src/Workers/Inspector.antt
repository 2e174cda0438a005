-- ===== src/Workers/Inspector.antt =====
-- src/async_gateway/workers/inspector.py: the scans of one tick. The metrics are left out, and so
-- is the first loop of `reconcile_orphans`, which marks rows of another table.
pub mod Deadlines
pub mod Closes
pub mod Resends
use async_task.Prelude.{
  ℕ, ◌+◌, Bool, true, false, ltb, String, Option, none, some, is_some, [], ◌∷◌, if◌then◌else◌,
}
use Prim.Native.String
use async_task.Domain.Status.{
  accepted, submit_unknown, timeout, ErrorCode, transport, unknown_exhausted,
}
use async_task.Db.Json.{get_num}
use async_task.Db.Task.{Task}
use async_task.Db.Assign.{
  set_error_code, set_error_message, set_unknown_since, set_next_poll_at, set_finished_at,
}
use async_task.Db.Dao.Calls.{Call}
use async_task.Db.Dao.Queries.{
  stalled_accepted, overdue_deadlines, stalled_active, pending_transfers, active_counts_by_channel,
}
use async_task.Infra.Limiter
use async_task.Infra.Limiter.Counters.{Counts}
use async_task.Tasks.Queues.{transfer_queue}
use async_task.Tasks.World.{Env, M, pure, gets, ◌>>=◌, ◌>>◌}
use async_task.Tasks.World.Actions.{commit, enqueue}
use async_task.Outcome.{ok}
use async_task.Workers.Session.{in_session, for_each}

-- The default limit of the queries.
abbrev pub row_limit : ℕ
row_limit = 200

-- `if moved: ...; actions += 1`
abbrev pub one_if : Bool → ℕ
one_if true = 1
one_if false = 0

module _ {P : Type 0} (env : Env P) where
  -- An accepted task with an intent: it may have been created.
  unfoldable pub doubt_accepted : Task → M P ℕ
  doubt_accepted task = do
    at ← gets (λ w. w.clock)
    moved ← commit (
        Call.advance task.task_id submit_unknown (some (accepted ∷ [])) (
          set_error_code (some transport)
          ∷ set_error_message (some "accepted stalled with submit intent (worker crash window)")
          ∷ set_unknown_since (some at)
          ∷ set_next_poll_at (some at)
          ∷ []))
    if moved
        then (do enqueue env "compensate:default" "compensate_orphan" task.task_id none; pure 1)
        else pure 0

  unfoldable pub requeue_accepted : Task → M P ℕ
  unfolding doubt_accepted
  requeue_accepted task =
      if is_some task.submit_started_at
      then doubt_accepted task
      else (do enqueue env "submit:default" "submit_upstream" task.task_id none; pure 1)

  unfoldable pub scan_accepted_stalls : ℕ → M P ℕ
  unfolding in_session requeue_accepted
  scan_accepted_stalls stall = in_session (do
    rows ← gets (λ w. stalled_accepted stall row_limit w.clock w.table)
    for_each requeue_accepted rows)

-- `deadline` is the text of the instant, which the message shows.
unfoldable pub close_overdue : {P : Type 0} → (Option ℕ → String) → Task → M P ℕ
close_overdue deadline task = do
  at ← gets (λ w. w.clock)
  moved ← commit (
      Call.advance task.task_id timeout (some (task.status ∷ [])) (
        set_error_code (some ErrorCode.timeout)
        ∷ set_error_message (some (String.◌++◌ "deadline exceeded at " (deadline task.deadline_at)))
        ∷ set_finished_at (some at)
        ∷ set_next_poll_at none
        ∷ []))
  pure (one_if moved)

unfoldable pub scan_deadlines : {P : Type 0} → (Option ℕ → String) → M P ℕ
unfolding in_session close_overdue
scan_deadlines deadline = in_session (do
  rows ← gets (λ w. overdue_deadlines row_limit w.clock w.table)
  for_each (close_overdue deadline) rows)

module _ {P : Type 0} (env : Env P) where
  unfoldable pub doubt_active : Task → M P ℕ
  doubt_active task = do
    at ← gets (λ w. w.clock)
    moved ← commit (
        Call.advance task.task_id submit_unknown (some (task.status ∷ [])) (
          set_error_code (some unknown_exhausted)
          ∷ set_error_message (some "active task stalled: heartbeat missing")
          ∷ set_unknown_since (some at)
          ∷ set_next_poll_at (some at)
          ∷ []))
    if moved
        then (do enqueue env "compensate:default" "compensate_orphan" task.task_id none; pure 1)
        else pure 0

  unfoldable pub reconcile_orphans : ℕ → M P ℕ
  unfolding in_session doubt_active
  reconcile_orphans stall = in_session (do
    rows ← gets (λ w. stalled_active stall row_limit w.clock w.table)
    for_each doubt_active rows)

  unfoldable pub redispatch_transfer : Task → M P ℕ
  redispatch_transfer task = do
    enqueue env transfer_queue "store_result" task.task_id
        (some (get_num "transfer_attempts" 1 task.attributes))
    pure 1

  unfoldable pub dispatch_pending_transfers : M P ℕ
  unfolding in_session redispatch_transfer
  dispatch_pending_transfers = in_session (do
    rows ← gets (λ w. pending_transfers 100 w.clock w.table)
    for_each redispatch_transfer rows)

module _ {P : Type 0} where
  -- `limiter.calibrate_channel`
  unfoldable pub calibrate_slot : String → ℕ → M P ℕ
  calibrate_slot channel n w =
      let (drift, slots') = Limiter.calibrate_channel channel n w.slots in
      (ok drift, record w { slots = slots' })

  -- `for channel, count in real.items()`
  unfoldable pub calibrate_all : Counts → M P ℕ
  unfolding calibrate_slot
  calibrate_all [] = pure 0
  calibrate_all ((channel, n) ∷ rest) = do
    drift ← calibrate_slot channel n
    k ← calibrate_all rest
    pure (one_if (ltb 0 drift) + k)

  unfoldable pub calibrate_concurrency : M P ℕ
  unfolding calibrate_all
  calibrate_concurrency = do real ← gets (λ w. active_counts_by_channel w.table); calibrate_all real
