-- ===== src/Gateway/Submission.antt =====
-- src/async_gateway/gateway/accept.py: what a request to create a task brings, and the row that is
-- made of it.
use async_task.Prelude.{ℕ, ◌+◌, ◌*◌, Bool, false, String, Option, none, some}
use Prim.Native.String
use async_task.Domain.Status.{
  TaskStatus, accepted, upstream_submitted, in_progress, submit_unknown, poll_unrecognized, failed,
  succeeded, cancelled, timeout, dead, dead_awaiting_confirm,
}
use async_task.Db.Json.{Json, str, end, field}
use async_task.Db.Task.{Task}

-- `TaskStatus.value`
abbrev pub status_value : TaskStatus → String
status_value accepted = "accepted"
status_value upstream_submitted = "upstream_submitted"
status_value in_progress = "in_progress"
status_value submit_unknown = "submit_unknown"
status_value poll_unrecognized = "poll_unrecognized"
status_value failed = "failed"
status_value succeeded = "succeeded"
status_value cancelled = "cancelled"
status_value timeout = "timeout"
status_value dead = "dead"
status_value dead_awaiting_confirm = "dead_awaiting_confirm"

-- What a request brings, and what is drawn or looked up for it.
pub record Submission : Type 0 where
  pub task_id : String
  pub tenant : String
  pub channel : String
  pub bearer : Option String
  pub key : String
  pub bucket : ℕ
  pub digest : String
  pub body : Json
  pub template_alias : String
  pub template_version : ℕ
  pub max_attempts : ℕ
  pub deadline_seconds : ℕ
  pub callback_token : Option String
  -- the accept limiter's decision, the depth of the queue and its limit, and whether the message
  -- is refused
  pub granted : Bool
  pub retry_after : Option ℕ
  pub depth : ℕ
  pub max_depth : ℕ
  pub bus_full : Bool

-- `request_key` and `response_key`
abbrev pub key_of : String → String → String → String
key_of prefix tenant id = String.◌++◌ prefix (String.◌++◌ tenant (String.◌++◌ ":" id))

abbrev pub response_ref : String → String → String
response_ref tenant id = key_of "reqresp:" tenant id

-- The new row.
unfoldable pub new_row : ℕ → Submission → Task
new_row now s = record {
  task_id = s.task_id;
  idempotency_key = s.key;
  idempotency_bucket = s.bucket;
  tenant = s.tenant;
  channel = s.channel;
  status = accepted;
  row_version = 0;
  template_alias = s.template_alias;
  template_version = s.template_version;
  upstream_task_id = none;
  attempts = 0;
  max_attempts = s.max_attempts;
  submit_started_at = none;
  deadline_at = some (now + s.deadline_seconds * 1_000_000);
  callback_token = s.callback_token;
  create_req_ref = some (key_of "req:" s.tenant s.task_id);
  create_req_digest = some s.digest;
  result_ref = none;
  result_summary = none;
  result_degraded = none;
  status_snapshot = none;
  status_snapshot_at = none;
  raw_status = none;
  error_code = none;
  error_message = none;
  retryable = none;
  cancel_requested = false;
  cancel_requested_at = none;
  unknown_since = none;
  confirm_attempts = 0;
  last_confirmed_at = none;
  poll_count = 0;
  next_poll_at = none;
  last_polled_at = none;
  created_at = now;
  updated_at = now;
  started_at = none;
  finished_at = none;
  attributes = some (field "create_response_ref" (str (response_ref s.tenant s.task_id)) end);
}
