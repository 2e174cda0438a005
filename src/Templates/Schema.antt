-- ===== src/Templates/Schema.antt =====
-- src/async_gateway/templates/schema.py: the part of a resolved template that the handlers and the
-- query side read. The source keeps the three paths as texts and compiles them when they are used;
-- here they are compiled.
use async_task.Prelude.{
  ℕ, Bool, true, false, String, str_eq, Option, none, some, List, any, if◌then◌else◌,
}
use async_task.Domain.Status.{TaskStatus, succeeded, timeout, failed}
use async_task.Templates.Expression.{JsonPath}

pub data ConfirmStrategy : Type 0 where
  query_by_client_key list_and_match manual_only : ConfirmStrategy

pub data ResultMode : Type 0 where
  store passthrough redirect : ResultMode

pub data StatusSource : Type 0 where
  poll callback : StatusSource

pub record Capabilities : Type 0 where
  pub confirm_strategy : ConfirmStrategy
  pub cancel : Bool
  pub callback : Bool
  pub list_tasks : Bool
  pub upstream_idempotent : Bool
  pub max_payload_bytes : ℕ
  pub permanent_result_url : Bool
  pub rate_limit_side_effect_free : Bool
  pub per_key_isolation : Bool

unfoldable pub confirm_auto_allowed : Capabilities → Bool
confirm_auto_allowed c = elim c.confirm_strategy [ manual_only ↦ false | _ ↦ true ]

pub record TerminalMapping : Type 0 where
  pub success : List String
  pub failure : List String
  pub expired : List String
  pub internal_terminal_rewrite : Option String
  pub internal_terminal_error_code : Option String
  -- the text of an expression, which is compiled when it is used
  pub error_field : Option String

pub record ResolvedTemplate : Type 0 where
  pub pool : Option String
  pub id_location : JsonPath
  pub status_field : JsonPath
  pub result_location : JsonPath
  pub terminal : TerminalMapping
  pub capabilities : Capabilities
  pub result_mode : ResultMode
  pub status_source : StatusSource

unfoldable pub maps_status : ResolvedTemplate → String → Option TaskStatus
maps_status t s =
    if any (str_eq s) t.terminal.success
    then some succeeded
    else if any (str_eq s) t.terminal.expired
    then some timeout
    else if any (str_eq s) t.terminal.failure
    then some failed
    else none
