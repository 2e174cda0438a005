-- ===== src/Gateway/Inline.antt =====
-- src/async_gateway/gateway/accept.py, `_inline_submit`: the create is asked for within the request,
-- and the caller gets the upstream's own answer. As in a handler, others may be at work on the table
-- between the accesses. The callback's address is given by the token; the headers of the answer are
-- left out.
pub mod Keeps
pub mod Safe
use Prim.Native.String
use async_task.Prelude.{
  ℕ, zero, Bool, true, false, not, ◌&&◌, String, str_eq, Option, none, some, get_or, List, [], ◌∷◌,
  leb, ltb, if◌then◌else◌,
}
use async_task.Prelude.Text.{or_text}
use async_task.Domain.Status.{
  TaskStatus, accepted, upstream_submitted, submit_unknown, status_eq, ErrorCode, upstream_terminal,
}
use async_task.Domain.Errors.{submit}
use async_task.Db.Json.{Json, null, bool, num, str, arr, obj, nil, end, field}
use async_task.Db.Task.{Task}
use async_task.Db.Dao.Calls.{Call}
use async_task.Templates.Schema.{ResolvedTemplate}
use async_task.Upstream.{UpstreamCallResult, success_code}
use async_task.Tasks.Queues.{poll_queue}
use async_task.Tasks.World.{
  Request, create, archived, Strategy, Env, M, pure, gets, finally, ◌>>=◌, ◌>>◌,
}
use async_task.Tasks.World.Actions.{load, apply, note, take_slot, give_slot, send, enqueue}
use async_task.Tasks.Runtime.{body_of, second, non_zero}
use async_task.Tasks.Submit.{callback_of}
use async_task.Tasks.Submit.Result.{handle_submit_result}
use async_task.Gateway.Accept.{Reply, done, refused}
use async_task.Gateway.Submission.{status_value, response_ref}

-- Who asks, and for which new task.
pub record Caller : Type 0 where
  pub task_id : String
  pub tenant : String
  pub channel : String
  pub body : Json

abbrev pub error_body : Caller → String → String → Json
error_body c code message = obj (
    field "error"
      (obj (
        field "code" (str code)
          (field "message" (str message) (field "task_id" (str c.task_id) end))))
      end)

-- `native or {…}`
abbrev pub or_body : Option Json → Json → Json
or_body none other = other
or_body (some null) other = other
or_body (some (bool false)) other = other
or_body (some (num zero)) other = other
or_body (some (str s)) other = if str_eq s "" then other else str s
or_body (some (arr nil)) other = other
or_body (some (obj end)) other = other
or_body (some j) other = j

abbrev pub answer_with : Caller → ℕ → Json → Reply
answer_with c code body =
    done (record { task_id = c.task_id; http_status = code; body = body; replayed = false })

-- `result.response.status_code if result.response is not None else 502`
abbrev pub code_of : UpstreamCallResult → ℕ
code_of result = elim result.response [ none ↦ 502 | some up ↦ up.status_code ]

-- `ErrorCode.value`
abbrev pub error_value : ErrorCode → String
error_value ErrorCode.upstream_4xx = "UPSTREAM_4XX"
error_value ErrorCode.upstream_5xx = "UPSTREAM_5XX"
error_value ErrorCode.upstream_terminal = "UPSTREAM_TERMINAL"
error_value ErrorCode.transport = "TRANSPORT"
error_value ErrorCode.rate_limited = "RATE_LIMITED"
error_value ErrorCode.timeout = "TIMEOUT"
error_value ErrorCode.cancelled = "CANCELLED"
error_value ErrorCode.transfer_failed = "TRANSFER_FAILED"
error_value ErrorCode.unknown_exhausted = "UNKNOWN_EXHAUSTED"
error_value ErrorCode.request_lost = "REQUEST_LOST"

-- What is archived for a replay.
abbrev pub archive_of : ℕ → Option Json → Json
archive_of code native = obj (
    field "status" (num code)
      (field "body" (get_or native null) (field "pending" (bool false) end)))

-- `AcceptError(500)`: the row is gone.
abbrev pub vanished : Reply
vanished = refused 500 "task vanished" none

-- What the part under the slot comes to: an answer, or the result of the call.
pub data Sent : Type 0 where
  early : Reply → Sent
  sent : UpstreamCallResult → Sent

module _ {P : Type 0} (env : Env P) where
  -- The rest of the answer, by the row that is read again.
  unfoldable pub answer_row : Caller → ResolvedTemplate → UpstreamCallResult → Task → M P Reply
  answer_row c template result task =
      if status_eq task.status upstream_submitted
      then (do
        note (
            archived (response_ref c.tenant c.task_id)
              (archive_of (code_of result) (body_of result)))
        enqueue env (poll_queue template.pool) "poll_upstream" c.task_id none
        pure (
            answer_with c (if success_code (code_of result) then code_of result else 200)
              (get_or (body_of result) null)))
      else if status_eq task.status submit_unknown
      then (do
        note (archived (response_ref c.tenant c.task_id) (archive_of 504 (body_of result)))
        pure (
            answer_with c 504 (
              or_body (body_of result) (
                error_body c (error_value ErrorCode.timeout)
                  "upstream create outcome unknown; safe to retry with the same idempotency key"))))
      else (do
        note (
            archived (response_ref c.tenant c.task_id)
              (archive_of (code_of result) (body_of result)))
        pure (
            answer_with c (code_of result) (
              or_body (body_of result) (
                error_body c (error_value (get_or task.error_code upstream_terminal))
                  (or_text task.error_message "upstream create failed")))))

  unfoldable pub answer_sent : Caller → ResolvedTemplate → Sent → M P Reply
  unfolding answer_row
  answer_sent c template (early reply) = pure reply
  answer_sent c template (sent result) = do
    found ← load c.task_id
    elim found [ none ↦ pure vanished | some task ↦ answer_row c template result task ]

  abbrev pub callback_for : ResolvedTemplate → Option Task → Option String
  callback_for template none = none
  callback_for template (some row) = callback_of env template row

  -- The create and what its result means, by the code that the workers use.
  unfoldable pub send_inline : Caller → ResolvedTemplate → Strategy → M P Sent
  send_inline c template strategy = do
    row ← load c.task_id
    result ← send env template (create c.body (callback_for template row)) submit
    found ← load c.task_id
    elim found [
      | none ↦ pure (early vanished)
      | some task ↦ (do handle_submit_result env task template strategy result; pure (sent result))
    ]

  -- No slot is free: the intent is given back, and the task is left to the workers.
  unfoldable pub leave_to_workers : Caller → Option ℕ → M P Sent
  leave_to_workers c retry_after = do
    at ← gets (λ w. w.clock)
    apply (Call.release_submit_intent c.task_id (accepted ∷ []) at true none none none none none)
    enqueue env "submit:default" "submit_upstream" c.task_id none
    pure (
        early (
          refused 429 "channel concurrency exhausted"
            (some (get_or (non_zero retry_after) second))))

  unfoldable pub inline_slotted : Caller → ResolvedTemplate → Strategy → M P Sent
  unfolding send_inline leave_to_workers
  inline_slotted c template strategy = do
    decision ← take_slot env c.channel c.tenant
    if not decision.granted
        then leave_to_workers c decision.retry_after
        else finally (send_inline c template strategy) (give_slot c.channel c.tenant)

  -- Another path has the task already.
  unfoldable pub taken_over : Caller → M P Reply
  taken_over c = do
    enqueue env "submit:default" "submit_upstream" c.task_id none
    pure (
        answer_with c 202 (
          obj (field "task_id" (str c.task_id) (field "status" (str (status_value accepted)) end))))

  unfoldable pub inline_claimed : Caller → ResolvedTemplate → Strategy → M P Reply
  unfolding inline_slotted answer_sent
  inline_claimed c template strategy = do
    outcome ← inline_slotted c template strategy
    answer_sent c template outcome

  unfoldable pub inline_submit : Caller → ResolvedTemplate → Strategy → M P Reply
  unfolding taken_over inline_claimed
  inline_submit c template strategy = do
    claimed ← apply (Call.mark_submit_intent c.task_id)
    if not claimed then taken_over c else inline_claimed c template strategy
