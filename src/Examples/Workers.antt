-- ===== src/Examples/Workers.antt =====
-- The theorems on the workers, and on what they hand to the handlers, at concrete inputs.
use mathlib.Core.List.{Memᴰ}
use async_task.Prelude.{
  ℕ, ◌≤◌, true, false, not, any, String, Option, some, List, [], ◌∷◌, All, ◌≡◌, ◌⊎◌, inl, inr, refl,
  arith,
}
use async_task.Domain.Status.{in_progress, failed, timeout, submit_unknown}
use async_task.Outcome.{transition_error, raised}
use async_task.Db.Task.{Task}
use async_task.Db.Dao.Cas.{get}
use async_task.Db.Dao.Calls.{Call, run}
use async_task.Db.Dao.Writes.{lease_dispatch}
use async_task.Db.Dao.Queries.{poll_time, due_for_dispatch, overdue_deadlines}
use async_task.Tasks.World.{Env, World}
use async_task.Tasks.Compensate.{settle, inconclusive}
use async_task.Tasks.Compensate.Settles.{settle_moves}
use async_task.Tasks.Submit.{submit_upstream}
use async_task.Tasks.Submit.Accepted.{only_accepted_created}
use async_task.Tasks.Dispatch.Paid.{tally, is_ask}
use async_task.Workers.Scheduler.Targets.{batch_oldest_first, due_test}
use async_task.Workers.Scheduler.Lease.{lease_exclusive}
use async_task.Workers.Inspector.{scan_deadlines, row_limit}
use async_task.Workers.Inspector.Deadlines.{raises, may_time_out, deadlines_blocked_iff}
use async_task.Workers.Inspector.Closes.{deadlines_close}
use async_task.Workers.Inspector.Resends.{is_resend, stalls_resend_unintended}
use async_task.Workers.Inspector.{scan_accepted_stalls}
use async_task.Tasks.Dispatch.Paid.{tally}
use async_task.Db.Dao.Queries.{stalled_accepted}
use async_task.Examples.Samples.{
  answering, created_body, start, new_task, lost_task, rows, template,
}

abbrev env : Env (Unit {0})
env = answering 200 created_body

-- A task whose poll is due and whose deadline has passed, and a failed one.
abbrev polled_task : Task
polled_task = record new_task {
  task_id = "t4";
  status = in_progress;
  next_poll_at = some 3_000_000;
  deadline_at = some 4_000_000;
}

abbrev failed_task : Task
failed_task = record polled_task { task_id = "t5"; status = failed }

abbrev running : World (Unit {0})
running = record start { table = polled_task ∷ rows }

abbrev blocked : World (Unit {0})
blocked = record start { table = polled_task ∷ failed_task ∷ rows }

abbrev deadline : Option ℕ → String
deadline at = "then"

-- An acceptance that stalled after its submit intent, next to one without an intent.
abbrev stalled : World (Unit {0})
stalled = record start {
  table =
      record new_task { submit_started_at = some 2_000_000 }
      ∷ record new_task { task_id = "t7" }
      ∷ [];
  clock = 100_000_000;
}

stalls_resend_unintended_example :
    tally (is_resend "t1") (scan_accepted_stalls env 60_000_000 stalled).1.trace
    ≡ tally (is_resend "t1") stalled.trace
unfolding stalled_accepted
stalls_resend_unintended_example = stalls_resend_unintended env 60_000_000 "t1" stalled refl

abbrev leases : List (ℕ × Call)
leases = (6_000_000, Call.lease_dispatch "t4" 30_000_000 (in_progress ∷ [])) ∷ []

lease_exclusive_example :
    (lease_dispatch 7_000_000 "t4" 30_000_000
      (in_progress ∷ [])
      (run leases (lease_dispatch 5_000_000 "t4" 30_000_000 (in_progress ∷ []) running.table).1)).0
    ≡ false
unfolding lease_dispatch async_task.Db.Dao.Cas.cas async_task.Db.Dao.Cas.hit
    async_task.Db.Dao.Cas.matches
lease_exclusive_example =
    lease_exclusive "t4" 5_000_000 7_000_000 30_000_000 30_000_000 (in_progress ∷ [])
      (in_progress ∷ []) leases running.table (inr (refl, (refl, (refl, tt)))) refl (refl, tt)
      (omega arith)

batch_oldest_first_example :
    All (λ r. due_test 5_000_000 r ≡ true) (due_for_dispatch 1 5_000_000 blocked.table)
    × (Memᴰ failed_task (due_for_dispatch 1 5_000_000 blocked.table)
        ⊎ All
            (λ r. poll_time r ≤ poll_time failed_task)
            (due_for_dispatch 1 5_000_000 blocked.table))
batch_oldest_first_example =
    batch_oldest_first 1 5_000_000 blocked.table failed_task (Memᴰ.tail (Memᴰ.head refl)) refl

deadlines_blocked_iff_example :
    (raises (scan_deadlines deadline blocked).0
      ≡ any (λ r. not (may_time_out r)) (overdue_deadlines row_limit blocked.clock blocked.table))
    × (raises (scan_deadlines deadline blocked).0 ≡ true
        → (scan_deadlines deadline blocked).1.table ≡ blocked.table)
deadlines_blocked_iff_example = deadlines_blocked_iff deadline blocked

deadlines_close_example :
    (s : Task) × (get "t4" (scan_deadlines deadline running).1.table ≡ some s)
    × (s.status ≡ timeout)
unfolding get overdue_deadlines async_task.Domain.Transitions.can_transition
deadlines_close_example =
    deadlines_close deadline polled_task running (Memᴰ.head refl) refl
      ((deadlines_blocked_iff deadline running).0)

only_accepted_created_example :
    tally is_ask (submit_upstream env "t5" blocked).1.trace ≡ tally is_ask blocked.trace
unfolding get
only_accepted_created_example =
    only_accepted_created env "t5" blocked {task = failed_task} refl
      (inl (refl, inr (refl, (refl, (refl, tt))))) refl refl

settle_moves_example :
    ((x : Task) × (get "t3" (settle env lost_task template (inconclusive "none") start).1.table
        ≡ some x)
      × (x.status ≡ submit_unknown))
    × (true ≡ true
        → ((settle env lost_task template (inconclusive "none") start).0
            ≡ raised (transition_error submit_unknown submit_unknown))
          × ((settle env lost_task template (inconclusive "none") start).1.table ≡ start.table))
unfolding get
settle_moves_example =
    settle_moves env lost_task template (inconclusive "none") start refl refl refl
