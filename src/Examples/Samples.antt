-- ===== src/Examples/Samples.antt =====
-- A task, a table, a template and what surrounds the handlers, to run the definitions on.
use async_task.Prelude.{ℕ, true, false, none, some, [], ◌∷◌}
use async_task.Domain.Status.{accepted, submit_unknown, succeeded}
use async_task.Db.Json.{Json, str, obj, end, field}
use async_task.Db.Task.{Task, Table}
use async_task.Templates.Expression.{key}
use async_task.Templates.Schema.{
  ResolvedTemplate, store, poll, query_by_client_key, ConfirmStrategy,
}
use async_task.Upstream.{answered}
use async_task.Tasks.World.{Env, World, got}

-- A task that was just accepted.
abbrev pub new_task : Task
new_task = record {
  task_id = "t1";
  idempotency_key = "k1";
  idempotency_bucket = 7;
  tenant = "acme";
  channel = "video";
  status = accepted;
  row_version = 0;
  template_alias = "echo";
  template_version = 1;
  upstream_task_id = none;
  attempts = 0;
  max_attempts = 3;
  submit_started_at = none;
  deadline_at = some 900_000_000;
  callback_token = none;
  create_req_ref = some "ref";
  create_req_digest = some "d1";
  result_ref = none;
  result_summary = none;
  result_degraded = none;
  status_snapshot = none;
  status_snapshot_at = none;
  raw_status = none;
  error_code = none;
  error_message = none;
  retryable = none;
  cancel_requested = false;
  cancel_requested_at = none;
  unknown_since = none;
  confirm_attempts = 0;
  last_confirmed_at = none;
  poll_count = 0;
  next_poll_at = none;
  last_polled_at = none;
  created_at = 1_000_000;
  updated_at = 1_000_000;
  started_at = none;
  finished_at = none;
  attributes = none;
}

abbrev pub done_task : Task
done_task = record new_task { task_id = "t2"; status = succeeded; result_ref = some "r2" }

abbrev pub lost_task : Task
lost_task = record new_task {
  task_id = "t3";
  status = submit_unknown;
  unknown_since = some 2_000_000;
}

abbrev pub rows : Table
rows = new_task ∷ done_task ∷ lost_task ∷ []

abbrev pub with_strategy : ConfirmStrategy → ResolvedTemplate
with_strategy strategy = record {
  pool = some "heavy-poll";
  id_location = key "id" ∷ [];
  status_field = key "status" ∷ [];
  result_location = key "url" ∷ [];
  terminal = record {
    success = "succeeded" ∷ [];
    failure = "failed" ∷ [];
    expired = "expired" ∷ [];
    internal_terminal_rewrite = none;
    internal_terminal_error_code = none;
    error_field = some "$.error";
  };
  capabilities = record {
    confirm_strategy = strategy;
    cancel = true;
    callback = false;
    list_tasks = false;
    upstream_idempotent = false;
    max_payload_bytes = 1_048_576;
    permanent_result_url = false;
    rate_limit_side_effect_free = false;
    per_key_isolation = true;
  };
  result_mode = store;
  status_source = poll;
}

abbrev pub template : ResolvedTemplate
template = with_strategy query_by_client_key

abbrev pub created_body : Json
created_body = obj (field "id" (str "u9") (field "status" (str "queued") end))

-- An upstream that answers each request with one status code and one body.
abbrev pub answering : ℕ → Json → Env (Unit {0})
answering code body = record {
  polling = record {
    next_interval = λ channel elapsed first s. 5_000_000;
    base_interval = λ channel elapsed first s. 5_000_000;
    note_rate_limited = λ channel after at s. s;
    decay_if_clean = λ channel quiet at s. s;
    paused_for = λ channel at s. 0;
    record_terminal = λ channel elapsed s. s;
  };
  settings = record {
    deadline_extension_max = 60_000_000;
    submit_retry_max = 10_000_000;
    aimd_quiet = 30_000_000;
    has_result_store = true;
  };
  template = λ alias version. some template;
  strategy = λ channel t. record { max_attempts = none; unknown_max_lifetime = none };
  channel_limits = λ channel. (2, 1);
  create_body = λ ref. some (obj end);
  renders = λ t request. true;
  wire = λ n request.
      answered (record { status_code = code; json_body = some body; raw_json_body = some body })
        "error" 3_000_000;
  bus_full = λ queue n. false;
  draw = λ n. 1;
  draws = 2;
  dump_size = λ j. 10;
  late = λ n. false;
  py_str = λ j. elim j [ str s ↦ s | _ ↦ "" ];
  path_text = λ p. "$.id";
  scrub = λ s. s;
  fetch = λ n url. got 12;
  result_key = λ task. "results/t2";
}

abbrev pub start : World (Unit {0})
start = record {
  table = rows;
  clock = 5_000_000;
  others = [];
  credentials = ("t1", "Bearer x") ∷ [];
  slots = [];
  polls = tt;
  trace = [];
}
