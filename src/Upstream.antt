-- ===== src/Upstream.antt =====
-- src/async_gateway/upstream/client.py: what a call of the upstream returns. The wire's answer is
-- given: a refused target, an exception of the HTTP library, or a response, whose bodies are the
-- JSON documents before and after redaction and whose `Retry-After` is already read.
use async_task.Prelude.{
  ℕ, Bool, true, false, ◌&&◌, ◌==◌, String, Option, none, some, leb, ltb, if◌then◌else◌,
}
use async_task.Domain.Errors.{
  Context, Classification, HttpException, is_unknown, classify_exception, classify_status,
}
use async_task.Db.Json.{Json}

pub data Outcome : Type 0 where
  ok http_error transport_error ssrf_rejected timeout_unknown : Outcome

pub record UpstreamResponse : Type 0 where
  pub status_code : ℕ
  pub json_body : Option Json
  pub raw_json_body : Option Json

pub record UpstreamCallResult : Type 0 where
  pub outcome : Outcome
  pub response : Option UpstreamResponse
  pub classification : Option Classification
  pub error : Option String
  pub retry_after : Option ℕ

pub data Wire : Type 0 where
  refused : String → Wire
  threw : HttpException → String → Wire
  -- the response, its text as the client reports it, and its `Retry-After` with the default
  answered : UpstreamResponse → String → ℕ → Wire

abbrev pub is_ok : Outcome → Bool
is_ok ok = true
is_ok _ = false

abbrev pub is_ssrf : Outcome → Bool
is_ssrf ssrf_rejected = true
is_ssrf _ = false

-- `UpstreamResponse.ok`
abbrev pub success_code : ℕ → Bool
success_code code = leb 200 code && ltb code 300

unfoldable pub call_result : Wire → Context → UpstreamCallResult
call_result (refused why) context = record {
  outcome = ssrf_rejected;
  response = none;
  classification = none;
  error = some why;
  retry_after = none;
}
call_result (threw exc why) context = record {
  outcome =
      if is_unknown (classify_exception exc context) then timeout_unknown else transport_error;
  response = none;
  classification = some (classify_exception exc context);
  error = some why;
  retry_after = none;
}
call_result (answered up why after) context =
    if success_code up.status_code
    then record {
      outcome = ok;
      response = some up;
      classification = none;
      error = none;
      retry_after = none;
    }
    else record {
      outcome = http_error;
      response = some up;
      classification = some (classify_status up.status_code context);
      error = some why;
      retry_after = if up.status_code == 429 then some after else none;
    }
