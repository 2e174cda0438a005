-- ===== src/Examples/Routes.antt =====
-- The theorems on the compiler of expressions, the registry, the routes and the
-- answer to a query at concrete inputs.
use async_task.Prelude.{
  ℕ, ◌≡◌, ◌≢◌, Bool, true, false, ◌&&◌, ◌==◌, String, str_eq, none, some, List, [], ◌∷◌, map, refl,
  arith, if◌then◌else◌,
}
use mathlib.Core.Option
use async_task.Prelude.Text.{begins_with, eq_lower, strip, has_text}
use async_task.Domain.Status.{cancelled, poll_unrecognized}
use async_task.Db.Json.{Fields, null, str, obj, end, field}
use async_task.Db.Task.{Task}
use async_task.Templates.Expression.Compile.{compile_expression, steps, unfinished}
use async_task.Templates.Expression.Compile.Grammar.{
  Piece, dot, single, front, back, spelled, meaning,
}
use async_task.Templates.Expression.Compile.Laws.{compile_finishes}
use async_task.Templates.Expression.Compile.Reads.{compile_spelled}
use async_task.Templates.Schema.{ResolvedTemplate, store, poll}
use async_task.Templates.Resolved.{Resolved}
use async_task.Templates.Registry.{
  TemplateVersion, TemplateRegistry, versioned, ValidationReport, add_version, register, place,
  without, last_live, get_template, plan_mode, patch_in_place, set_versions, amend,
}
use async_task.Templates.Registry.Versions.{Ascending, registry_returns}
use async_task.Templates.Changes.{flatten, classify_change}
use async_task.Templates.Changes.Patch.{Patched, patch_keeps_shape}
use async_task.Templates.Render.{tokens, fill, sanitize, render_path}
use async_task.Gateway.Routing.{query, cancel, normalize, before_query, rstrip_slash, match_route}
use async_task.Gateway.Routing.Laws.{route_rendered}
use async_task.Gateway.Native.{effective_status_value, build_native_query_response}
use async_task.Gateway.Envelope.{response_headers}
use async_task.Gateway.Native.Contract.{Reads}
use async_task.Examples.Samples.{template, new_task}

compile_finishes_example : compile_expression "$.data[0]['id" ≢ unfinished
compile_finishes_example = compile_finishes "$.data[0]['id"

-- `$.data[-1]['id'][0]`
abbrev pieces : List Piece
pieces = dot "data" ∷ back "1" ∷ single "id" ∷ front "0" ∷ []

compile_spelled_example :
    compile_expression (String.◌∷◌ "$" (spelled pieces)) ≡ steps (map meaning pieces)
unfolding has_text
compile_spelled_example =
    compile_spelled pieces (refl, (refl, (refl, (refl, tt)))) (omega arith) refl

abbrev video : Resolved
video = record {
  alias = "video";
  namespace = "media";
  base_url = "https://up.example";
  create_path = "/v1/jobs";
  create_method = "POST";
  get_path_template = "/v1/jobs/{id}";
  get_method = "GET";
  cancel_path_template = "/v1/jobs/{id}/cancel";
  cancel_method = "POST";
  id_location = "$.id";
  status_field = "$.status";
  result_location = "$.url";
  terminal = template.terminal;
  capabilities = template.capabilities;
  result_policy = record {
    mode = store;
    presign_ttl_seconds = none;
    retention_days = none;
    unavailable_gone = false;
  };
  pool = "heavy";
  status_source = poll;
  callback_param = "callback_url";
  normalize = record { fields = []; case_insensitive_fields = []; trim_strings = true };
  strategy = end;
  extra_headers = [];
  request_body_template = none;
  notes = none;
  provenance = [];
}

abbrev stored : ℕ → ℕ → TemplateVersion
stored n weight = record {
  alias = "video";
  namespace = "media";
  version = n;
  enabled = true;
  resolved = video;
  raw = end;
  canary_weight = weight;
}

abbrev registry : TemplateRegistry
registry alias = if str_eq alias "video" then stored 1 1000 ∷ stored 2 0 ∷ [] else []

abbrev registered : TemplateRegistry
registered alias =
    if str_eq alias "video" then stored 1 1000 ∷ stored 2 0 ∷ stored 3 1000 ∷ [] else registry alias

abbrev report : Fields → ValidationReport
report raw = record { ok = true; resolved = some video }

registry_returns_example :
    ((a : String) (n : ℕ)
      → get_template a (some n) registered ≡ (
          if str_eq a "video" && 3 == n
          then some (stored 3 1000)
          else get_template a (some n) registry))
    × ((a : String) → Ascending (registered a))
unfolding register add_version place without
registry_returns_example =
    registry_returns report (λ raw. none) (λ a b. versioned) end none true true registry
      {tv = stored 3 1000} {r' = registered} refl (λ a. sorted (str_eq a "video"))
  where
    sorted : (b : Bool) → Ascending (if b then stored 1 1000 ∷ stored 2 0 ∷ [] else [])
    sorted true = ((omega arith, tt), (tt, tt))
    sorted false = tt

-- The same template with another place of the status.
abbrev corrected : Resolved
corrected = record video { status_field = "$.state" }

abbrev dump : Resolved → Fields
dump r = field "pool" (str r.pool) (
    field "status_field" (str r.status_field)
      (field "result_policy" (obj (field "mode" (str "store") end)) end))

abbrev patched : TemplateVersion
patched = record (stored 1 1000) { resolved = corrected; raw = end }

patch_keeps_shape_example :
    Patched
      (λ raw. record { ok = true; resolved = some corrected })
      (λ raw. some corrected)
      dump
      registry
      patched
      "result_policy.mode"
unfolding patch_in_place plan_mode get_template last_live classify_change flatten begins_with
patch_keeps_shape_example =
    patch_keeps_shape (λ raw. record { ok = true; resolved = some corrected })
      (λ raw. some corrected) dump end "result_policy.mode" registry {tv = patched}
      {r' = set_versions "video" (amend 1 corrected end (registry "video")) registry} (refl, refl)
      refl refl

route_rendered_example :
    (match_route video "/v1/jobs/u9" "GET" ≡ query "u9")
    × (match_route video "/v1/jobs/u9/cancel" "POST" ≡ cancel "u9")
unfolding render_path tokens fill sanitize has_text normalize before_query rstrip_slash strip
    eq_lower
route_rendered_example =
    route_rendered video "u9" refl refl refl refl refl (refl, refl) (refl, refl) (refl, refl)

-- A task that the client cancelled while the upstream was still at work.
abbrev cancelled_task : Task
cancelled_task = record new_task {
  status = cancelled;
  raw_status = some "running";
  status_snapshot = some (obj (field "status" (str "running") end));
}

-- What a cancellation of a running task leaves, where the template has the value `cancelled` among its
-- failures: the answer says that the task is running.
abbrev stale_task : Task
stale_task = record cancelled_task { raw_status = some "cancelled" }

abbrev with_cancelled : ResolvedTemplate
with_cancelled = record template {
  terminal = record template.terminal { failure = "failed" ∷ "cancelled" ∷ []; error_field = none };
}

stale_cancellation :
    build_native_query_response (λ j. 10) (λ n. false) stale_task with_cancelled false none
    ≡ some (obj (field "status" (str "running") (field "url" null end)))
unfolding build_native_query_response async_task.Gateway.Native.answer_fields
    async_task.Domain.Transitions.is_internal_terminal async_task.Gateway.Native.write_error
    async_task.Gateway.Native.clear_result async_task.Gateway.Native.write_status
    effective_status_value
stale_cancellation = refl

-- A cancelled task never changes and is to be asked for again, and one whose poll was not recognized
-- is polled on and is not.
cancelled_headers :
    ((response_headers cancelled_task 5_000_000).retry_after ≡ some 5)
    × ((response_headers
          (record cancelled_task { status = poll_unrecognized })
          5_000_000).retry_after
        ≡ none)
unfolding response_headers
cancelled_headers = (refl, refl)
