-- ===== src/Gateway/Native.antt =====
-- src/async_gateway/gateway/output.py and templates/derive.py: the answer to a query in the shape of
-- the upstream. The snapshot is copied and written into; `none` is an exception, which an error
-- field that does not compile causes. Whether a result store is configured is an input.
pub mod Laws
pub mod Paths
pub mod Contract
pub mod Class
use async_task.Prelude.{
  ℕ, Bool, true, false, not, ◌&&◌, ◌||◌, String, str_eq, Option, none, some, List, [], ◌∷◌, any,
  is_some, get_or, if◌then◌else◌,
}
use async_task.Prelude.Text.{is_empty, or_text, strip}
use async_task.Domain.Status.{TaskStatus, status_eq, succeeded, cancelled, timeout}
use async_task.Domain.Transitions.{is_internal_terminal}
use async_task.Db.Json.{Json, null, str, obj, Fields, end, lookup, insert}
use async_task.Db.Task.{Task}
use async_task.Templates.Expression.{JsonPath, try_extract}
use async_task.Templates.Expression.Compile.{compile_expression, steps}
use async_task.Templates.Schema.{
  TerminalMapping, ResolvedTemplate, ResultMode, store, passthrough, redirect,
}
use async_task.Gateway.Output.{set_path_on_doc}

-- `(values or [default])[0]`
abbrev pub first_or : List String → String → String
first_or [] d = d
first_or (x ∷ xs) d = x

-- `value in values`, where the value may be missing.
abbrev pub among : Option String → List String → Bool
among none values = false
among (some v) values = any (str_eq v) values

abbrev pub is_store : ResultMode → Bool
is_store store = true
is_store _ = false

unfoldable pub effective_failure_status : TerminalMapping → String
effective_failure_status t = or_text t.internal_terminal_rewrite (first_or t.failure "failed")

unfoldable effective_failure_error_code : TerminalMapping → String
unfolding effective_failure_status
effective_failure_error_code t = or_text t.internal_terminal_error_code (effective_failure_status t)

-- `native_snapshot`
abbrev pub native_snapshot : Task → Json
native_snapshot task = get_or task.status_snapshot (obj end)

abbrev pub pending_placeholder_status : String
pending_placeholder_status = "queued"

-- The value to write and whether it must be written, by the raw status.
abbrev pub status_of_success : Option String → TerminalMapping → String × Bool
status_of_success raw t =
    if among raw t.success then (get_or raw "", false) else (first_or t.success "succeeded", true)

abbrev pub status_of_cancel : Option String → TerminalMapping → String × Bool
status_of_cancel raw t =
    if among raw t.failure || among raw t.expired
    then (get_or raw "", false)
    else (effective_failure_status t, true)

abbrev pub status_of_internal : TaskStatus → Option String → TerminalMapping → String × Bool
status_of_internal s raw t =
    if (among raw t.failure || among raw t.expired) && status_eq s timeout && among raw t.expired
    then (get_or raw "", false)
    else (effective_failure_status t, true)

abbrev pub status_of_running : Option String → String × Bool
status_of_running none = (pending_placeholder_status, true)
status_of_running (some raw) = (raw, false)

-- `_effective_status_value`
unfoldable pub effective_status_value : TaskStatus → Option String → TerminalMapping → String × Bool
unfolding effective_failure_status is_internal_terminal
effective_status_value s raw t =
    if status_eq s succeeded
    then status_of_success raw t
    else if status_eq s cancelled
    then status_of_cancel raw t
    else if is_internal_terminal s
    then status_of_internal s raw t
    else status_of_running raw

-- `set_path_on_doc` by the text of an expression.
unfoldable pub write_by_text : String → Json → Fields → Option Fields
write_by_text spec value d = elim (compile_expression spec) [
  | steps path ↦ some (set_path_on_doc path value d)
  | _ ↦ none
]

abbrev pub url_json : Option String → Json
url_json none = null
url_json (some url) = str url

-- `snapshot.setdefault("_result_hint", …)`, where there is no link.
unfoldable pub add_hint : Option String → Fields → Fields
unfolding lookup insert
add_hint (some url) d = d
add_hint none d =
    if is_some (lookup "_result_hint" d)
    then d
    else insert "_result_hint" (str "unavailable_or_pending") d

-- The result field of a task that succeeded.
unfoldable pub write_result : ResolvedTemplate → Bool → Option String → Fields → Fields
unfolding set_path_on_doc add_hint
write_result t has_store url d =
    if is_store t.result_mode && has_store
    then add_hint url (set_path_on_doc t.result_location (url_json url) d)
    else d

-- The reason of a failure: the message that the task has, else the code.
unfoldable pub failure_detail : Option String → TerminalMapping → String
unfolding strip effective_failure_error_code
failure_detail message t =
    or_text (some (strip (get_or message ""))) (effective_failure_error_code t)

unfoldable pub write_error :
    Option String → Option String → TerminalMapping → Fields → Option Fields
write_error none message t d = some d
write_error (some spec) message t d =
    if is_empty spec then some d else write_by_text spec (str (failure_detail message t)) d

-- The result field of a task that has none.
unfoldable pub clear_result : ResolvedTemplate → Fields → Fields
unfolding set_path_on_doc
clear_result t d = if is_store t.result_mode then set_path_on_doc t.result_location null d else d

module _ (dump_size : Json → ℕ) (late : ℕ → Bool) where
  -- The status field is written if it must be or if it is missing.
  unfoldable pub write_status : JsonPath → String × Bool → Fields → Fields
  unfolding try_extract set_path_on_doc
  write_status path v d =
      if v.1 || not (is_some (try_extract dump_size late path (obj d)))
      then set_path_on_doc path (str v.0) d
      else d

  unfoldable pub answer_fields :
      Task → ResolvedTemplate → Bool → Option String → Fields → Option Fields
  answer_fields task t has_store url d =
      let d1 =
        write_status t.status_field (effective_status_value task.status task.raw_status t.terminal)
          d in
      if status_eq task.status succeeded
      then some (write_result t has_store url d1)
      else if is_internal_terminal task.status || status_eq task.status cancelled
      then elim (write_error t.terminal.error_field task.error_message t.terminal d1) [
        | none ↦ none
        | some d2 ↦ some (clear_result t d2)
      ]
      else some d1

  unfoldable pub answer_snapshot :
      Task → ResolvedTemplate → Bool → Option String → Json → Option Json
  answer_snapshot task t has_store url (obj d) = elim (answer_fields task t has_store url d) [
    | none ↦ none
    | some r ↦ some (obj r)
  ]
  answer_snapshot task t has_store url other = some other

  unfoldable pub build_native_query_response :
      Task → ResolvedTemplate → Bool → Option String → Option Json
  unfolding answer_snapshot
  build_native_query_response task t has_store url =
      answer_snapshot task t has_store url (native_snapshot task)
