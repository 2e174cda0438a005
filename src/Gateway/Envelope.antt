-- ===== src/Gateway/Envelope.antt =====
-- src/async_gateway/gateway/output.py: what goes with an answer to the gateway's own callers, the
-- notices of degraded promises, the envelope and the headers. A notice is its code; its explanation
-- is left out. Instants are not printed. Whether a result store is configured is an input.
use async_task.Prelude.{
  ℕ, ◌/◌, Bool, true, false, not, ◌&&◌, ◌||◌, String, Option, none, some, List, [], ◌∷◌, ◌++◌, max,
  if◌then◌else◌,
}
use async_task.Domain.Status.{
  TaskStatus, status_eq, succeeded, poll_unrecognized, ErrorCode, OutputTerminal,
}
use async_task.Domain.Transitions.{is_internal_terminal, output_terminal}
use async_task.Db.Json.{bool, Fields, lookup, or_empty}
use async_task.Db.Task.{Task}
use async_task.Templates.Schema.{
  ResolvedTemplate, ResultMode, passthrough, StatusSource, poll, callback,
}
use async_task.Gateway.Native.{is_store}
use async_task.Gateway.Submission.{status_value}

-- `attrs.get(key)` as a condition, on an entry that this program wrote as a Boolean.
abbrev is_set : String → Option Fields → Bool
is_set key d = elim (lookup key (or_empty d)) [ some (bool b) ↦ b | _ ↦ false ]

abbrev is_degraded : Option (List String) → Bool
is_degraded none = false
is_degraded (some []) = false
is_degraded (some (x ∷ xs)) = true

abbrev is_passthrough : ResultMode → Bool
is_passthrough passthrough = true
is_passthrough _ = false

abbrev is_callback : StatusSource → Bool
is_callback callback = true
is_callback poll = false

abbrev notice : Bool → String → List String
notice true code = code ∷ []
notice false code = []

unfoldable pub degraded_notices : Task → ResolvedTemplate → Bool → Bool → List String
unfolding lookup
degraded_notices task t has_store result_available =
    notice (is_set "cancel_degraded" task.attributes) "cancel_requested"
    ++ notice (is_passthrough t.result_mode) "passthrough_result"
    ++ notice (is_store t.result_mode && not has_store) "transfer_disabled"
    ++ notice (is_degraded task.result_degraded) "result_unavailable"
    ++ notice (status_eq task.status poll_unrecognized) "poll_unrecognized"
    ++ notice (is_internal_terminal task.status) "gateway_internal_terminal"
    ++ notice (not t.capabilities.upstream_idempotent) "upstream_idempotent_false"
    ++ notice (is_callback t.status_source && not t.capabilities.callback) "callback_unavailable"
    ++ notice
        (not result_available
          && status_eq task.status succeeded
          && is_store t.result_mode
          && has_store)
        "result_pending"

pub record Envelope : Type 0 where
  pub task_id : String
  pub alias : String
  pub template_version : ℕ
  pub raw_status : Option String
  pub terminal : OutputTerminal
  pub internal_status : TaskStatus
  pub attempts : ℕ
  pub error_code : Option ErrorCode
  pub next_poll_at : Option ℕ
  pub deadline_at : Option ℕ
  pub degraded : List String

unfoldable pub envelope : Task → ResolvedTemplate → Bool → Bool → Envelope
unfolding degraded_notices output_terminal
envelope task t has_store result_available = record {
  task_id = task.task_id;
  alias = task.template_alias;
  template_version = task.template_version;
  raw_status = task.raw_status;
  terminal = output_terminal task.status;
  internal_status = task.status;
  attempts = task.attempts;
  error_code = task.error_code;
  next_poll_at = task.next_poll_at;
  deadline_at = task.deadline_at;
  degraded = degraded_notices task t has_store result_available;
}

-- The headers `X-AG-Task-Id`, `X-AG-Internal-Status`, `X-AG-Snapshot` and, if there is one,
-- `Retry-After`, in seconds. The interval is in microseconds.
pub record Headers : Type 0 where
  pub task_id : String
  pub internal_status : String
  pub snapshot : String
  pub retry_after : Option ℕ

unfoldable pub response_headers : Task → ℕ → Headers
unfolding is_internal_terminal
response_headers task refresh_interval =
    if (status_eq task.status succeeded || status_eq task.status poll_unrecognized)
      || is_internal_terminal task.status
    then record {
      task_id = task.task_id;
      internal_status = status_value task.status;
      snapshot = "terminal";
      retry_after = none;
    }
    else record {
      task_id = task.task_id;
      internal_status = status_value task.status;
      snapshot = "cached";
      retry_after = some (max 1 (refresh_interval / 1_000_000));
    }
