-- ===== src/Db/Task.antt =====
-- src/async_gateway/db/models.py, `AsyncTask`: one row. Instants and durations are counted in
-- microseconds, the resolution of `datetime`. Left out are the columns that no modelled code
-- reads: task_type, origin, replay_of, final_output_status, trace_id.
use async_task.Prelude.{ℕ, Bool, String, Option, List}
use async_task.Domain.Status.{TaskStatus, ErrorCode}
use async_task.Db.Json.{Json, Fields}

pub record Task : Type 0 where
  pub task_id : String
  pub idempotency_key : String
  pub idempotency_bucket : ℕ
  pub tenant : String
  pub channel : String
  pub status : TaskStatus
  pub row_version : ℕ
  pub template_alias : String
  pub template_version : ℕ
  pub upstream_task_id : Option String
  pub attempts : ℕ
  pub max_attempts : ℕ
  pub submit_started_at : Option ℕ
  pub deadline_at : Option ℕ
  pub callback_token : Option String
  pub create_req_ref : Option String
  pub create_req_digest : Option String
  pub result_ref : Option String
  pub result_summary : Option Json
  pub result_degraded : Option (List String)
  pub status_snapshot : Option Json
  pub status_snapshot_at : Option ℕ
  pub raw_status : Option String
  pub error_code : Option ErrorCode
  pub error_message : Option String
  pub retryable : Option Bool
  pub cancel_requested : Bool
  pub cancel_requested_at : Option ℕ
  pub unknown_since : Option ℕ
  pub confirm_attempts : ℕ
  pub last_confirmed_at : Option ℕ
  pub poll_count : ℕ
  pub next_poll_at : Option ℕ
  pub last_polled_at : Option ℕ
  pub created_at : ℕ
  pub updated_at : ℕ
  pub started_at : Option ℕ
  pub finished_at : Option ℕ
  pub attributes : Option Fields

-- The rows of the table, in the order of insertion.
abbrev pub Table : Type 0
Table = List Task
