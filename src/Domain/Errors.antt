-- ===== src/Domain/Errors.antt =====
-- src/async_gateway/domain/errors.py: what an upstream answer or a transport exception means.
-- An exception of the HTTP library is given by its answers to the `isinstance` tests of the code,
-- in the code's order; how the library's classes nest is not assumed.
pub mod Laws
use async_task.Prelude.{ℕ, Bool, true, false, ◌&&◌, ◌||◌, ◌==◌, leb, ltb, if◌then◌else◌}
use async_task.Domain.Status.{
  ErrorClass, retry_safe, fail_fast, confirm_required, rate_limited, channel_fault, ErrorCode,
  upstream_4xx, upstream_5xx, transport,
}

pub data Context : Type 0 where
  submit poll cancel result : Context

pub data Action : Type 0 where
  retry backoff fail confirm channel_break : Action

pub record Classification : Type 0 where
  pub error_class : ErrorClass
  pub error_code : ErrorCode
  pub retryable : Bool
  pub consumes_attempt : Bool
  pub channel_fault : Bool
  pub action : Action

pub record HttpException : Type 0 where
  pub connect_timeout : Bool
  pub connect_error : Bool
  pub timeout_exception : Bool
  pub remote_protocol_error : Bool
  pub read_error : Bool
  pub write_error : Bool
  pub http_error : Bool

abbrev pub is_confirm : Action → Bool
is_confirm confirm = true
is_confirm _ = false

abbrev pub is_poll : Context → Bool
is_poll poll = true
is_poll _ = false

unfoldable pub is_unknown : Classification → Bool
is_unknown c = is_confirm c.action

abbrev pub retry_safe_transport : Classification
retry_safe_transport = record {
  error_class = retry_safe;
  error_code = transport;
  retryable = true;
  consumes_attempt = true;
  channel_fault = false;
  action = retry;
}

abbrev pub confirm_transport : Classification
confirm_transport = record {
  error_class = confirm_required;
  error_code = transport;
  retryable = false;
  consumes_attempt = true;
  channel_fault = false;
  action = confirm;
}

abbrev pub confirm_timeout : Classification
confirm_timeout = record {
  error_class = confirm_required;
  error_code = ErrorCode.timeout;
  retryable = false;
  consumes_attempt = true;
  channel_fault = false;
  action = confirm;
}

abbrev pub retry_with : ErrorCode → Action → Classification
retry_with code act = record {
  error_class = retry_safe;
  error_code = code;
  retryable = true;
  consumes_attempt = true;
  channel_fault = false;
  action = act;
}

unfoldable pub classify_exception : HttpException → Context → Classification
classify_exception exc context =
    if exc.connect_timeout
    then retry_safe_transport
    else if exc.connect_error
    then retry_safe_transport
    else if exc.timeout_exception
    then (if is_poll context then retry_with ErrorCode.timeout backoff else confirm_timeout)
    else if exc.remote_protocol_error || exc.read_error || exc.write_error
    then (if is_poll context then retry_with transport backoff else confirm_transport)
    else if exc.http_error
    then (if is_poll context then retry_with transport backoff else confirm_transport)
    else (if is_poll context then retry_with transport backoff else confirm_transport)

unfoldable pub classify_status : ℕ → Context → Classification
classify_status code context =
    if code == 429
    then record {
      error_class = rate_limited;
      error_code = ErrorCode.rate_limited;
      retryable = true;
      consumes_attempt = false;
      channel_fault = false;
      action = backoff;
    }
    else if code == 401 || code == 403
    then record {
      error_class = channel_fault;
      error_code = upstream_4xx;
      retryable = false;
      consumes_attempt = false;
      channel_fault = true;
      action = channel_break;
    }
    else if code == 409
    then record {
      error_class = confirm_required;
      error_code = upstream_4xx;
      retryable = false;
      consumes_attempt = false;
      channel_fault = false;
      action = confirm;
    }
    else if code == 404 && is_poll context
    then record {
      error_class = confirm_required;
      error_code = upstream_4xx;
      retryable = false;
      consumes_attempt = false;
      channel_fault = false;
      action = confirm;
    }
    else if leb 400 code && ltb code 500
    then record {
      error_class = fail_fast;
      error_code = upstream_4xx;
      retryable = false;
      consumes_attempt = true;
      channel_fault = false;
      action = fail;
    }
    else if leb 500 code && ltb code 600
    then (if is_poll context
        then record {
          error_class = retry_safe;
          error_code = upstream_5xx;
          retryable = true;
          consumes_attempt = false;
          channel_fault = false;
          action = backoff;
        }
        else record {
          error_class = confirm_required;
          error_code = upstream_5xx;
          retryable = false;
          consumes_attempt = true;
          channel_fault = false;
          action = confirm;
        })
    else record {
      error_class = confirm_required;
      error_code = upstream_5xx;
      retryable = false;
      consumes_attempt = false;
      channel_fault = false;
      action = confirm;
    }
