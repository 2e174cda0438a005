-- ===== src/Infra/AcceptLimiter.antt =====
-- src/async_gateway/infra/concurrency.py: `MemoryAcceptRateLimiter`, the token bucket of the
-- acceptance. Instants are in microseconds and tokens in millionths, so that a rate in whole
-- tokens per second fills the bucket exactly; the wait is rounded down.
pub mod Laws
use async_task.Prelude.{
  ℕ, zero, suc, ◌+◌, ◌-◌, ◌*◌, ◌/◌, min, Bool, true, false, some, leb, if◌then◌else◌,
}
use async_task.Infra.Limiter.{SlotDecision, grant}

pub record Bucket : Type 0 where
  pub tokens : ℕ
  pub ts : ℕ

abbrev pub token : ℕ
token = 1_000_000

-- `__init__`
unfoldable pub full_bucket : ℕ → ℕ → Bucket
full_bucket burst now = record { tokens = burst * token; ts = now }

-- `(cost - self.tokens) / max(self.rate, 0.001)`
abbrev pub wait_for : ℕ → ℕ → ℕ
wait_for zero missing = missing * 1000
wait_for (suc rate) missing = missing / suc rate

-- The bucket as it is at an instant.
unfoldable pub refill : ℕ → ℕ → ℕ → Bucket → Bucket
refill rate burst now b = record {
  tokens = min (burst * token) (b.tokens + (now - b.ts) * rate);
  ts = now;
}

unfoldable pub try_acquire : ℕ → ℕ → ℕ → ℕ → Bucket → SlotDecision × Bucket
unfolding refill
try_acquire rate burst cost now b =
    let filled = refill rate burst now b in
    if leb (cost * token) filled.tokens
    then (grant, record { tokens = filled.tokens - cost * token; ts = now })
    else (
      record {
        granted = false;
        reason = "accept_rate";
        retry_after = some (wait_for rate (cost * token - filled.tokens));
      },
      filled,
    )
