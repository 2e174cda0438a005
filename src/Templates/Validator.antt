-- ===== src/Templates/Validator.antt =====
-- src/async_gateway/templates/validator.py: the checks on a resolved template. An issue has the
-- field and whether it is an error; its message is left out. What pydantic refuses does not come
-- here, and the samples of responses are left out.
use async_task.Prelude.{
  ℕ, ◌*◌, Bool, true, false, not, ◌&&◌, ◌||◌, String, str_eq, Option, none, some, List, [], ◌∷◌,
  ◌++◌, any, leb, ltb, ◌==◌, is_some, if◌then◌else◌,
}
use async_task.Prelude.Text.{is_empty, strip, has_text, eq_lower}
use async_task.Db.Json.{Fields, lookup, get_num}
use async_task.Templates.Expression.Compile.{is_valid_expression}
use async_task.Templates.Schema.{
  ConfirmStrategy, list_and_match, TerminalMapping, ResultMode, passthrough, redirect, StatusSource,
  poll, callback,
}
use async_task.Templates.Resolved.{Resolved}
use async_task.Gateway.Native.{effective_failure_status}

pub record Issue : Type 0 where
  pub field : String
  pub is_error : Bool

abbrev error_at : String → Issue
error_at f = record { field = f; is_error = true }

abbrev warning_at : String → Issue
warning_at f = record { field = f; is_error = false }

-- `if test: report.add(…)`
abbrev pub when : Bool → Issue → List Issue
when true i = i ∷ []
when false i = []

abbrev pub is_nil : List String → Bool
is_nil [] = true
is_nil (x ∷ xs) = false

-- `set(a) & set(b)` is not empty.
abbrev pub overlap : List String → List String → Bool
overlap a b = any (λ x. any (str_eq x) b) a

unfoldable check_expressions : Resolved → List Issue
unfolding is_valid_expression
check_expressions r =
    when (not (is_valid_expression r.id_location)) (error_at "id_location")
    ++ when (not (is_valid_expression r.status_field)) (error_at "status_field")
    ++ when (not (is_valid_expression r.result_location)) (error_at "result_location")

abbrev is_callback : StatusSource → Bool
is_callback callback = true
is_callback poll = false

unfoldable check_paths : Resolved → List Issue
unfolding has_text
check_paths r =
    when (not (has_text "{id}" r.get_path_template)) (error_at "get_path_template")
    ++ when (r.capabilities.cancel && not (has_text "{id}" r.cancel_path_template))
        (error_at "cancel_path_template")
    ++ when (is_empty r.base_url) (error_at "base_url")
    ++ when (is_callback r.status_source && not r.capabilities.callback) (error_at "status_source")

unfoldable pub check_terminal : TerminalMapping → List Issue
unfolding effective_failure_status
check_terminal t =
    when (is_nil t.success) (error_at "terminal.success")
    ++ when (is_nil t.failure) (error_at "terminal.failure")
    ++ when (overlap t.success t.failure) (error_at "terminal")
    ++ when
        (not (
          any (str_eq (effective_failure_status t)) t.failure
          || any (str_eq (effective_failure_status t)) t.expired))
        (warning_at "terminal.internal_terminal_rewrite")

abbrev is_list_and_match : ConfirmStrategy → Bool
is_list_and_match list_and_match = true
is_list_and_match _ = false

abbrev is_passthrough : ResultMode → Bool
is_passthrough passthrough = true
is_passthrough _ = false

abbrev is_redirect : ResultMode → Bool
is_redirect redirect = true
is_redirect _ = false

-- A field of the normalisation is not in the body template.
abbrev missing_fields : List String → Option Fields → Bool
missing_fields fields none = false
missing_fields fields (some body) = any (λ f. not (is_some (lookup f body))) fields

unfoldable check_capabilities : Resolved → List Issue
unfolding strip lookup
check_capabilities r =
    when (is_list_and_match r.capabilities.confirm_strategy && is_nil r.normalize.fields)
      (error_at "normalize.fields")
    ++ when (r.capabilities.per_key_isolation && r.capabilities.upstream_idempotent)
        (warning_at "capabilities")
    ++ when (is_passthrough r.result_policy.mode && not r.capabilities.permanent_result_url)
        (error_at "result_policy.mode")
    ++ when (is_redirect r.result_policy.mode) (error_at "result_policy.mode")
    ++ when (r.capabilities.callback && is_empty (strip r.callback_param))
        (error_at "callback_param")
    ++ when (missing_fields r.normalize.fields r.request_body_template)
        (warning_at "normalize.fields")

-- Whether there is a warning; a `poll_max_interval` that is not given is that of the settings.
unfoldable risky_deadline_warning : ℕ → ℕ → Bool
risky_deadline_warning deadline poll_max =
    if deadline == 0 || poll_max == 0 then false else leb deadline (2 * poll_max)

-- Numbers are natural numbers, so that `min_refresh_interval` is never refused; the keys of a draft are
-- known, as the schema ensures.
unfoldable check_strategy : ℕ → Resolved → List Issue
unfolding get_num risky_deadline_warning
check_strategy poll_max r =
    when (ltb (get_num "max_attempts" 1 (some r.strategy)) 1) (error_at "strategy.max_attempts")
    ++ when (leb (get_num "deadline_seconds" 1 (some r.strategy)) 0)
        (error_at "strategy.deadline_seconds")
    ++ when (risky_deadline_warning (get_num "deadline_seconds" 0 (some r.strategy)) poll_max)
        (warning_at "strategy.deadline_seconds")
    ++ when (leb (get_num "idempotency_window_seconds" 1 (some r.strategy)) 0)
        (error_at "strategy.idempotency_window_seconds")

abbrev pub credential_headers : List String
credential_headers = "authorization" ∷ "x-api-key" ∷ "api-key" ∷ "x-goog-api-key" ∷ []

unfoldable check_credentials : List (String × String) → List Issue
unfolding eq_lower
check_credentials [] = []
check_credentials ((key, value) ∷ rest) =
    when (any (eq_lower key) credential_headers) (error_at "extra_headers")
    ++ check_credentials rest

-- The checks that `validate` makes on what the draft resolves to.
unfoldable check_resolved : ℕ → Resolved → List Issue
unfolding check_expressions check_paths check_terminal check_capabilities check_strategy
    check_credentials
check_resolved poll_max r =
    check_expressions r
    ++ check_paths r
    ++ check_terminal r.terminal
    ++ check_capabilities r
    ++ check_strategy poll_max r
    ++ check_credentials r.extra_headers

-- `report.ok`, for a template that resolved.
unfoldable no_errors : List Issue → Bool
no_errors issues = not (any (λ i. i.is_error) issues)
