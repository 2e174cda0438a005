-- ===== src/Db/Assign.antt =====
-- The `values` of an UPDATE statement on the task table: one assignment for each column. An
-- expression on the column itself, such as `attempts + 1`, has a constructor of its own.
use async_task.Prelude.{ℕ, ◌+◌, ◌-◌, Bool, true, false, String, Option, List, [], ◌∷◌}
use async_task.Domain.Status.{TaskStatus, ErrorCode}
use async_task.Db.Json.{Json, Fields}
use async_task.Db.Task.{Task}

pub data Assign : Type 0 where
  set_status : TaskStatus → Assign
  set_upstream_task_id : Option String → Assign
  set_raw_status : Option String → Assign
  set_status_snapshot : Option Json → Assign
  set_status_snapshot_at : Option ℕ → Assign
  set_started_at : Option ℕ → Assign
  set_finished_at : Option ℕ → Assign
  set_next_poll_at : Option ℕ → Assign
  set_last_polled_at : Option ℕ → Assign
  set_poll_count : ℕ → Assign
  incr_poll_count : Assign
  set_error_code : Option ErrorCode → Assign
  set_error_message : Option String → Assign
  set_retryable : Option Bool → Assign
  set_unknown_since : Option ℕ → Assign
  set_submit_started_at : Option ℕ → Assign
  set_deadline_at : Option ℕ → Assign
  raise_cancel_requested : Assign
  set_cancel_requested_at : Option ℕ → Assign
  put_result_ref : Option String → Assign
  set_result_summary : Option Json → Assign
  set_result_degraded : Option (List String) → Assign
  set_last_confirmed_at : Option ℕ → Assign
  incr_confirm_attempts : Assign
  incr_attempts : Assign
  decr_attempts : Assign
  set_attributes : Option Fields → Assign

-- `attempts - 1` where that is positive, else 0 (`_decremented_attempts`); `-` on ℕ stops at 0.
abbrev pub decremented_attempts : Task → ℕ
decremented_attempts r = r.attempts - 1

unfoldable pub assign : Assign → Task → Task
assign (set_status v) r = record r { status = v }
assign (set_upstream_task_id v) r = record r { upstream_task_id = v }
assign (set_raw_status v) r = record r { raw_status = v }
assign (set_status_snapshot v) r = record r { status_snapshot = v }
assign (set_status_snapshot_at v) r = record r { status_snapshot_at = v }
assign (set_started_at v) r = record r { started_at = v }
assign (set_finished_at v) r = record r { finished_at = v }
assign (set_next_poll_at v) r = record r { next_poll_at = v }
assign (set_last_polled_at v) r = record r { last_polled_at = v }
assign (set_poll_count v) r = record r { poll_count = v }
assign incr_poll_count r = record r { poll_count = r.poll_count + 1 }
assign (set_error_code v) r = record r { error_code = v }
assign (set_error_message v) r = record r { error_message = v }
assign (set_retryable v) r = record r { retryable = v }
assign (set_unknown_since v) r = record r { unknown_since = v }
assign (set_submit_started_at v) r = record r { submit_started_at = v }
assign (set_deadline_at v) r = record r { deadline_at = v }
assign raise_cancel_requested r = record r { cancel_requested = true }
assign (set_cancel_requested_at v) r = record r { cancel_requested_at = v }
assign (put_result_ref v) r = record r { result_ref = v }
assign (set_result_summary v) r = record r { result_summary = v }
assign (set_result_degraded v) r = record r { result_degraded = v }
assign (set_last_confirmed_at v) r = record r { last_confirmed_at = v }
assign incr_confirm_attempts r = record r { confirm_attempts = r.confirm_attempts + 1 }
assign incr_attempts r = record r { attempts = r.attempts + 1 }
assign decr_attempts r = record r { attempts = decremented_attempts r }
assign (set_attributes v) r = record r { attributes = v }

unfoldable pub assign_all : List Assign → Task → Task
unfolding assign
assign_all [] r = r
assign_all (a ∷ rest) r = assign_all rest (assign a r)

abbrev pub sets_finished_at : Assign → Bool
sets_finished_at (set_finished_at _) = true
sets_finished_at _ = false

abbrev pub sets_next_poll_at : Assign → Bool
sets_next_poll_at (set_next_poll_at _) = true
sets_next_poll_at _ = false
