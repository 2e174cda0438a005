-- ===== src/Domain/Backoff.antt =====
-- src/async_gateway/domain/errors.py, `backoff_seconds`. Times are counted in microseconds, the
-- jitter in thousandths, and the draw of `random.random()` is `draw / draws` with `draw < draws`.
-- The division rounds down where the source computes in floating point.
pub mod Bounds
use async_task.Prelude.{ℕ, ◌+◌, ◌-◌, ◌*◌, ◌/◌, ◌^◌, min}

-- `min(cap, base * 2 ** max(0, attempt - 1))`
unfoldable pub raw_backoff : ℕ → ℕ → ℕ → ℕ
raw_backoff attempt base cap = min cap (base * 2 ^ (attempt - 1))

-- The parameters stand in the source's order; the draw comes last.
unfoldable pub backoff_seconds : ℕ → ℕ → ℕ → ℕ → ℕ → ℕ → ℕ
unfolding raw_backoff
backoff_seconds attempt base cap jitter draw draws =
    let raw = raw_backoff attempt base cap in
    min cap ((raw * (1000 - jitter) * draws + raw * jitter * 2 * draw) / (1000 * draws))
