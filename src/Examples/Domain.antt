-- ===== src/Examples/Domain.antt =====
-- The domain's theorems at concrete inputs.
use async_task.Prelude.{true, false, ◌≡◌, ◌≢◌, ◌⊎◌, ◌↔◌}
use async_task.Domain.Errors.{HttpException, submit, retry, is_unknown, classify_exception}
use async_task.Domain.Errors.Laws.{submit_retry_iff}

read_timeout : HttpException
read_timeout = record {
  connect_timeout = false;
  connect_error = false;
  timeout_exception = true;
  remote_protocol_error = false;
  read_error = false;
  write_error = false;
  http_error = true;
}

submit_retry_iff_example :
    (((classify_exception read_timeout submit).action ≡ retry)
      ↔ ((read_timeout.connect_timeout ≡ true) ⊎ (read_timeout.connect_error ≡ true)))
    × ((classify_exception read_timeout submit).action ≢ retry
        → is_unknown (classify_exception read_timeout submit) ≡ true)
submit_retry_iff_example = submit_retry_iff read_timeout
