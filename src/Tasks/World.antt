-- ===== src/Tasks/World.antt =====
-- The state that the handlers of src/async_gateway/tasks/handlers.py act on, and the actions that
-- they are made of. A handler is no transaction: between two of its accesses to the table other
-- workers may make any calls, which `others` lists for each access in turn. The clock is read from
-- the world and stands still within one run of a handler. What a handler does outside the table is
-- recorded in `trace`, the newest event first.
pub mod Actions
pub mod Keeps
pub mod Turns
pub mod Leads
pub mod Tables
pub mod Controller
use async_task.Prelude.{
  ℕ, suc, ◌+◌, Bool, true, false, String, str_eq, Option, none, some, List, [], ◌∷◌, if◌then◌else◌,
}
use async_task.Domain.Status.{TaskStatus}
use async_task.Domain.Backoff.{backoff_seconds}
use async_task.Domain.Errors.{Context}
use async_task.Outcome.{Fault, queue_saturated, render_error, Result, ok, raised}
use async_task.Db.Json.{Json, Fields}
use async_task.Db.Task.{Task, Table}
use async_task.Db.Dao.Cas.{get}
use async_task.Db.Dao.Calls.{Call, perform, run}
use async_task.Infra.Limiter.Counters.{Counts}
use async_task.Infra.Limiter
use async_task.Infra.Limiter.{SlotDecision}
use async_task.Templates.Expression.{JsonPath}
use async_task.Templates.Schema.{ResolvedTemplate}
use async_task.Upstream.{Wire, UpstreamCallResult, call_result}

-- A rendered request: what it asks for.
pub data Request : Type 0 where
  create : Json → Option String → Request
  get_task : String → Request
  cancel_task : String → Request
  confirm_by_key : String → Request

pub data AuditKind : Type 0 where
  terminal : TaskStatus → AuditKind
  channel_fault task_level_retry poll_unrecognized transfer_failed result_export : AuditKind
  callback_event : AuditKind

pub data Event : Type 0 where
  wrote : Call → Bool → Event
  requested : Request → Event
  -- queue, handler, task, attempt
  enqueued : String → String → String → Option ℕ → Event
  audited : AuditKind → String → Event
  dropped_credential : String → Event
  archived : String → Json → Event
  fetched : String → Event
  stored : String → Event

-- `fetch_result`: the number of bytes, or the text of the failure.
pub data FetchResult : Type 0 where
  got : ℕ → FetchResult
  fetch_failed : String → FetchResult

-- infra/polling.py, as the handlers use it: durations in microseconds, the channel first.
pub record Polling (P : Type 0) : Type 0 where
  pub next_interval : String → ℕ → Bool → P → ℕ
  pub base_interval : String → ℕ → Bool → P → ℕ
  pub note_rate_limited : String → Option ℕ → ℕ → P → P
  pub decay_if_clean : String → ℕ → ℕ → P → P
  pub paused_for : String → ℕ → P → ℕ
  pub record_terminal : String → ℕ → P → P

pub record Strategy : Type 0 where
  pub max_attempts : Option ℕ
  pub unknown_max_lifetime : Option ℕ

pub record Settings : Type 0 where
  pub deadline_extension_max : ℕ
  pub submit_retry_max : ℕ
  pub aimd_quiet : ℕ
  pub has_result_store : Bool

-- What surrounds the handlers. The wire, the bus, the random draws and the result fetch answer by
-- the number of events so far.
pub record Env (P : Type 0) : Type 0 where
  pub polling : Polling P
  pub settings : Settings
  pub template : String → ℕ → Option ResolvedTemplate
  pub strategy : String → ResolvedTemplate → Strategy
  pub channel_limits : String → ℕ × ℕ
  pub create_body : String → Option Json
  pub renders : ResolvedTemplate → Request → Bool
  pub wire : ℕ → Request → Wire
  pub bus_full : String → ℕ → Bool
  pub draw : ℕ → ℕ
  pub draws : ℕ
  pub dump_size : Json → ℕ
  pub late : ℕ → Bool
  -- `str(value)` and `safe_error`'s redaction
  pub py_str : Json → String
  -- the text that a path was compiled from
  pub path_text : JsonPath → String
  pub scrub : String → String
  -- `fetch_result`, and `result_key`
  pub fetch : ℕ → String → FetchResult
  pub result_key : Task → String

pub record World (P : Type 0) : Type 0 where
  pub table : Table
  pub clock : ℕ
  pub others : List (List (ℕ × Call))
  pub credentials : List (String × String)
  pub slots : Counts
  pub polls : P
  pub trace : List Event

abbrev pub M : Type 0 → Type 0 → Type 0
M P A = World P → Result A × World P

module _ {P A : Type 0} where
  pub pure : A → M P A
  pure a w = (ok a, w)

  pub raise : Fault → M P A
  raise e w = (raised e, w)

  pub gets : (World P → A) → M P A
  gets f w = (ok (f w), w)

module _ {P A B : Type 0} where
  abbrev pub continue : Result A → (A → M P B) → M P B
  continue (ok a) f w = f a w
  continue (raised e) f w = (raised e, w)

  infixl 5 ◌>>=◌ ◌>>◌
  unfoldable pub ◌>>=◌ : M P A → (A → M P B) → M P B
  unfolding pure raise gets
  ◌>>=◌ m f w = let (r, w') = m w in continue r f w'

  abbrev pub ◌>>◌ : M P A → M P B → M P B
  m >> n = m >>= λ _. n

  abbrev pub after_body : Result A → Result B × World P → Result A × World P
  after_body r (ok b, w) = (r, w)
  after_body r (raised e, w) = (raised e, w)

  -- `try: body finally: cleanup`
  unfoldable pub finally : M P A → M P B → M P A
  finally body cleanup w = let (r, w') = body w in after_body r (cleanup w')
