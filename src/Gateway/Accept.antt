-- ===== src/Gateway/Accept.antt =====
-- src/async_gateway/gateway/accept.py: `accept_create` where a task is queued (the default of
-- `submit_mode`), and `_replay_or_conflict`. The idempotency key, its window's bucket and the
-- body's digest are resolved before; the answers of the accept limiter and of the bus, the new id
-- and the callback token are inputs. Between the look-up and the insert other requests may insert
-- rows. The audit row is left out.
pub mod Once
pub mod Keys
use async_task.Prelude.{
  ℕ, zero, suc, ◌+◌, ◌*◌, Bool, true, false, not, ◌&&◌, String, str_eq, Option, none, some, get_or,
  List, [], ◌∷◌, leb, if◌then◌else◌,
}
use Prim.Native.String
use async_task.Domain.Status.{
  TaskStatus, accepted, upstream_submitted, in_progress, submit_unknown, poll_unrecognized, failed,
  succeeded, cancelled, timeout, dead, dead_awaiting_confirm,
}
use async_task.Db.Json.{Json, null, str, obj, Fields, end, field, lookup, or_empty}
use async_task.Db.Task.{Task, Table}
use async_task.Db.Dao.Inserts.{find_by_idempotency, insert_row, insert_all}
use async_task.Gateway.Submission.{Submission, status_value, key_of, response_ref, new_row}

-- An archived response.
pub record Stored : Type 0 where
  pub http_status : Option ℕ
  pub body : Json
  pub pending : Bool

pub record AcceptResult : Type 0 where
  pub task_id : String
  pub http_status : ℕ
  pub body : Json
  pub replayed : Bool

pub data Reply : Type 0 where
  done : AcceptResult → Reply
  -- `AcceptError`
  refused : ℕ → String → Option ℕ → Reply
  -- `QueueSaturated`
  saturated : Reply

pub record Front : Type 0 where
  pub table : Table
  pub clock : ℕ
  pub bodies : List (String × Json)
  pub responses : List (String × Stored)
  pub credentials : List (String × String)
  pub queued : List String

abbrev pub stored_at : String → List (String × Stored) → Option Stored
stored_at ref [] = none
stored_at ref ((k, v) ∷ rest) = if str_eq k ref then some v else stored_at ref rest

-- `(existing.attributes or {}).get("create_response_ref") or ...`
abbrev pub ref_of : Task → String
ref_of r = elim (lookup "create_response_ref" (or_empty r.attributes)) [
  | some (str ref) ↦ if str_eq ref "" then response_ref r.tenant r.task_id else ref
  | _ ↦ response_ref r.tenant r.task_id
]

-- `int(stored.get("status") or 200)`
abbrev pub or_200 : Option ℕ → ℕ
or_200 none = 200
or_200 (some zero) = 200
or_200 (some (suc n)) = suc n

abbrev pub accepted_body : String → String → Json
accepted_body id status =
    obj (field "id" (str id) (field "task_id" (str id) (field "status" (str status) end)))

-- The answer of a response that is not there yet.
abbrev pub not_yet : Task → Reply
not_yet r = done (record {
  task_id = r.task_id;
  http_status = 202;
  body = accepted_body r.task_id (status_value r.status);
  replayed = true;
})

unfoldable pub replay : Task → Option Stored → Reply
replay r none = not_yet r
replay r (some s) =
    if s.pending
    then not_yet r
    else done (record {
      task_id = r.task_id;
      http_status = or_200 s.http_status;
      body = s.body;
      replayed = true;
    })

-- `existing.create_req_digest and digest and existing.create_req_digest != digest`
abbrev pub differs : Option String → String → Bool
differs none digest = false
differs (some old) digest =
    not (str_eq old "") && (not (str_eq digest "") && not (str_eq old digest))

unfoldable pub replay_or_conflict : List (String × Stored) → Task → String → Reply
unfolding replay
replay_or_conflict responses r digest =
    if differs r.create_req_digest digest
    then refused 409 "idempotency key reused with a different request body within the dedup window"
        none
    else replay r (stored_at (ref_of r) responses)

-- The body, and a response that is pending.
unfoldable pub put_request : Submission → Front → Front
put_request s f = record f {
  bodies = (key_of "req:" s.tenant s.task_id, s.body) ∷ f.bodies;
  responses =
      (response_ref s.tenant s.task_id, record { http_status = none; body = null; pending = true })
      ∷ f.responses;
}

-- `if credential is not None and auth.bearer`
abbrev pub keep_bearer : Submission → List (String × String) → List (String × String)
keep_bearer s c = elim s.bearer [
  | none ↦ c
  | some bearer ↦ if str_eq bearer "" then c else (s.task_id, bearer) ∷ c
]

-- After the insert: the credential, and the message.
unfoldable pub hand_over : Submission → Front → Reply × Front
hand_over s f =
    let kept : Front = record f { credentials = keep_bearer s f.credentials } in
    if s.bus_full then (saturated, kept) else (
      done (record {
        task_id = s.task_id;
        http_status = 202;
        body = accepted_body s.task_id "queued";
        replayed = false;
      }),
      record kept { queued = s.task_id ∷ kept.queued },
    )

-- The insert failed: the row that won is replayed.
unfoldable pub lose : Submission → Front → Reply
unfolding replay_or_conflict
lose s f = elim (find_by_idempotency s.key s.bucket f.table) [
  | none ↦ refused 409 "idempotency conflict" (some 1_000_000)
  | some winner ↦ replay_or_conflict f.responses winner s.digest
]

abbrev pub inserted : Submission → Front → Option Table → Reply × Front
inserted s f none = (lose s f, f)
inserted s f (some t) = hand_over s (record f { table = t })

unfoldable pub persist : List Task → Submission → Front → Reply × Front
unfolding put_request new_row hand_over lose
persist rivals s f =
    let raced : Front = record (put_request s f) { table = insert_all rivals f.table } in
    inserted s raced (insert_row (new_row f.clock s) raced.table)

-- With what the look-up found.
unfoldable pub create_or_replay : List Task → Submission → Front → Option Task → Reply × Front
unfolding persist replay_or_conflict
create_or_replay rivals s f none = persist rivals s f
create_or_replay rivals s f (some existing) = (replay_or_conflict f.responses existing s.digest, f)

unfoldable pub accept_create : List Task → Submission → Front → Reply × Front
unfolding create_or_replay
accept_create rivals s f =
    if not s.granted
    then (refused 429 "accept rate limit exceeded" s.retry_after, f)
    else if leb s.max_depth s.depth
    then (refused 503 "queue submit:default saturated" (some 2_000_000), f)
    else create_or_replay rivals s f (find_by_idempotency s.key s.bucket f.table)
