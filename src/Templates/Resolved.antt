-- ===== src/Templates/Resolved.antt =====
-- src/async_gateway/templates/schema.py, `ResolvedTemplate` with all its fields. The strategy, the
-- body template and the extra headers are dictionaries; numbers in them are natural numbers, so a
-- negative one is not modelled.
use async_task.Prelude.{ℕ, Bool, String, Option, List}
use async_task.Db.Json.{Fields}
use async_task.Templates.Schema.{Capabilities, TerminalMapping, ResultMode, StatusSource}

pub record ResultPolicy : Type 0 where
  pub mode : ResultMode
  pub presign_ttl_seconds : Option ℕ
  pub retention_days : Option ℕ
  pub unavailable_gone : Bool

pub record NormalizationRules : Type 0 where
  pub fields : List String
  pub case_insensitive_fields : List String
  pub trim_strings : Bool

pub data FieldSource : Type 0 where
  explicit derived default patched : FieldSource

pub record Resolved : Type 0 where
  pub alias : String
  pub namespace : String
  pub base_url : String
  pub create_path : String
  pub create_method : String
  pub get_path_template : String
  pub get_method : String
  pub cancel_path_template : String
  pub cancel_method : String
  pub id_location : String
  pub status_field : String
  pub result_location : String
  pub terminal : TerminalMapping
  pub capabilities : Capabilities
  pub result_policy : ResultPolicy
  pub pool : String
  pub status_source : StatusSource
  pub callback_param : String
  pub normalize : NormalizationRules
  pub strategy : Fields
  pub extra_headers : List (String × String)
  pub request_body_template : Option Fields
  pub notes : Option String
  pub provenance : List (String × FieldSource)
