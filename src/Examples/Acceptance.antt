-- ===== src/Examples/Acceptance.antt =====
-- The theorems on the acceptance of tasks at concrete inputs.
use async_task.Prelude.{
  ℕ, ◌+◌, ◌≤◌, String, true, false, some, none, List, [], ◌∷◌, ◌≡◌, refl, if◌then◌else◌,
}
use async_task.Db.Json.{obj, end}
use async_task.Db.Dao.Calls.{Call, run}
use async_task.Db.Dao.Inserts.{find_by_idempotency, insert_all}
use async_task.Gateway.Accept.{AcceptResult, done, refused, Front, differs, accept_create}
use async_task.Gateway.Submission.{Submission, new_row}
use async_task.Gateway.Accept.Once.{is_new, accept_once}
use async_task.Gateway.Accept.Keys.{OneKey, keys_stay_unique, row_before_message}
use async_task.Examples.Samples.{template, answering, created_body, start, new_task}
use async_task.Db.Task.{Task}
use async_task.Db.Dao.Cas.{get}
use async_task.Db.Dao.Rows.{RowStep}
use async_task.Infra.Limiter.Counters.{count}
use async_task.Tasks.World.{Env, World, Strategy}
use async_task.Tasks.Dispatch.Paid.{tally, is_ask, is_win}
use async_task.Gateway.Inline.{Caller, inline_submit}
use async_task.Gateway.Inline.Safe.{inline_safe}

abbrev request : Submission
request = record {
  task_id = "a1";
  tenant = "acme";
  channel = "video";
  bearer = some "Bearer x";
  key = "order-7";
  bucket = 3;
  digest = "d7";
  body = obj end;
  template_alias = "echo";
  template_version = 1;
  max_attempts = 3;
  deadline_seconds = 1800;
  callback_token = none;
  granted = true;
  retry_after = none;
  depth = 4;
  max_depth = 100;
  bus_full = false;
}

-- The same request, which gets another id.
abbrev retried : Submission
retried = record request { task_id = "a2" }

abbrev front : Front
front = record {
  table = new_task ∷ [];
  clock = 5_000_000;
  bodies = [];
  responses = [];
  credentials = [];
  queued = [];
}

abbrev first : Front
first = (accept_create [] request front).1

abbrev calls : List (ℕ × Call)
calls = (6_000_000, Call.mark_submit_intent "a1") ∷ []

abbrev later : Front
later = record first { table = run calls (insert_all [] first.table); responses = []; clock = 9 }

accept_once_example :
    ((accept_create [] retried later).1 ≡ later)
    × (differs (some "d7") "d7" ≡ false
        → (a : AcceptResult) × ((accept_create [] retried later).0 ≡ done a)
          × (a.task_id ≡ "a1")
          × (a.replayed ≡ true))
    × (differs (some "d7") "d7" ≡ true
        → (accept_create [] retried later).0
          ≡ refused 409
              "idempotency key reused with a different request body within the dedup window" none)
unfolding accept_create find_by_idempotency async_task.Db.Dao.Inserts.insert_row insert_all
accept_once_example =
    accept_once [] [] [] request retried front calls [] 9 refl (refl, tt) refl refl refl refl

keys_stay_unique_example : OneKey (run calls (accept_create [] request front).1.table)
keys_stay_unique_example = keys_stay_unique [] request front calls (tt, tt) (refl, tt)

row_before_message_example :
    (first.queued ≡ (if is_new (accept_create [] request front).0 then "a1" ∷ [] else []))
    × (is_new (accept_create [] request front).0 ≡ true
        → find_by_idempotency "order-7" 3 first.table ≡ some (new_row 5_000_000 request))
row_before_message_example = row_before_message [] request front

abbrev caller : Caller
caller = record { task_id = "t1"; tenant = "acme"; channel = "video"; body = obj end }

abbrev strategy : Strategy
strategy = record { max_attempts = none; unknown_max_lifetime = none }

abbrev env : Env (Unit {0})
env = answering 200 created_body

abbrev submitted : World (Unit {0})
submitted = (inline_submit env caller template strategy start).1

inline_safe_example :
    (tally is_ask submitted.trace + tally is_win start.trace
      ≤ tally is_win submitted.trace + tally is_ask start.trace)
    × ((slot : String) → count slot submitted.slots ≡ count slot start.slots)
    × ((x : Task) × (get "t1" submitted.table ≡ some x) × RowStep new_task x)
unfolding get
inline_safe_example = inline_safe env caller template strategy "t1" start {r = new_task} tt refl
