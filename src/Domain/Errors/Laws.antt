-- ===== src/Domain/Errors/Laws.antt =====
-- What the classification of errors promises to the handlers.
use async_task.Prelude.{ℕ, true, false, ◌≡◌, ◌≢◌, ◌⊎◌, ◌↔◌, ◌≤◌, ◌<◌, arith}
use async_task.Domain.Status.{retry_safe, fail_fast, confirm_required, rate_limited, channel_fault}
use async_task.Domain.Errors.{
  Context, submit, poll, retry, fail, confirm, channel_break, Classification, HttpException,
  is_unknown, classify_exception, classify_status,
}

-- The class decides what may be done: `retryable` and the flags are derived from it.
pub record IsCoherent (c : Classification) : Type 0 where
  pub retryable_iff :
      (c.retryable ≡ true) ↔ ((c.error_class ≡ retry_safe) ⊎ (c.error_class ≡ rate_limited))
  pub confirm_iff : (c.action ≡ confirm) ↔ (c.error_class ≡ confirm_required)
  pub fail_iff : (c.action ≡ fail) ↔ (c.error_class ≡ fail_fast)
  pub fault_iff : (c.channel_fault ≡ true) ↔ (c.error_class ≡ channel_fault)
  pub break_iff : (c.action ≡ channel_break) ↔ (c.error_class ≡ channel_fault)
  pub limited_free : c.error_class ≡ rate_limited → c.consumes_attempt ≡ false
  pub fault_free : c.error_class ≡ channel_fault → c.consumes_attempt ≡ false

classify_status-IsCoherent : (code : ℕ) (k : Context) → IsCoherent (classify_status code k)
unfolding classify_status
classify_status-IsCoherent code submit = ground arith
classify_status-IsCoherent code _ = ground arith

classify_exception-IsCoherent :
    (e : HttpException) (k : Context) → IsCoherent (classify_exception e k)
unfolding classify_exception
classify_exception-IsCoherent e submit = ground arith
classify_exception-IsCoherent e _ = ground arith

-- For every status code and every exception, in every context, the classification is coherent:
-- the class alone decides whether the error is retryable, to be confirmed, to fail the task or
-- a fault of the channel, and 429 and channel faults never consume an attempt.
classify-IsCoherent :
    (code : ℕ) (e : HttpException) (k : Context)
    → IsCoherent (classify_status code k) × IsCoherent (classify_exception e k)
classify-IsCoherent code e k =
    (classify_status-IsCoherent code k, classify_exception-IsCoherent e k)

-- A create request is resent without confirmation only if it never left: exactly on a connect
-- timeout or a connect error. Every other exception of a submit is to be confirmed.
pub submit_retry_iff :
    (e : HttpException)
    → (((classify_exception e submit).action ≡ retry)
        ↔ ((e.connect_timeout ≡ true) ⊎ (e.connect_error ≡ true)))
      × ((classify_exception e submit).action ≢ retry
          → is_unknown (classify_exception e submit) ≡ true)
unfolding classify_exception is_unknown
submit_retry_iff e = ground arith

-- No answer to a create request counts as safe to retry, whatever its status. The create is
-- failed exactly on a 4xx other than 401, 403, 409 and 429, and confirmed exactly on 409 and on
-- every status outside 400 to 499.
submit_status_iff :
    (code : ℕ)
    → ((classify_status code submit).error_class ≢ retry_safe)
      × (((classify_status code submit).action ≡ fail) ↔ (
          (400 ≤ code) × (code < 500) × (code ≢ 401) × (code ≢ 403) × (code ≢ 409) × (code ≢ 429)))
      × ((is_unknown (classify_status code submit) ≡ true)
          ↔ ((code ≡ 409) ⊎ (code < 400) ⊎ (500 ≤ code)))
unfolding classify_status is_unknown
submit_status_iff code = ground arith

-- While polling, an exception and a 5xx are always retryable and never turn the task unknown; a
-- 404 asks for confirmation.
poll_keeps_task :
    (e : HttpException) (code : ℕ)
    → (is_unknown (classify_exception e poll) ≡ false)
      × ((classify_exception e poll).retryable ≡ true)
      × (500 ≤ code
          → code < 600
          → (is_unknown (classify_status code poll) ≡ false)
            × ((classify_status code poll).retryable ≡ true)
            × ((classify_status code poll).consumes_attempt ≡ false))
      × (is_unknown (classify_status 404 poll) ≡ true)
unfolding classify_exception classify_status is_unknown
poll_keeps_task e code = ground arith
