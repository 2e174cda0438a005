-- ===== src/Domain/Backoff/Bounds.antt =====
-- The backoff curve: its cap, its growth and the reach of its jitter.
use async_task.Prelude.{ℕ, ◌+◌, ◌-◌, ◌*◌, ◌/◌, ◌≤◌, ◌<◌, arith}
use native.Mathlib.Nat.{
  le-div_iff_mul-le, div-mul-le_self, div-le_of_le-mul, pow-le-pow_right, mul-le-mul_right,
}
use async_task.Domain.Backoff.{raw_backoff, backoff_seconds}

raw-le-cap : (attempt base cap : ℕ) → raw_backoff attempt base cap ≤ cap
unfolding raw_backoff
raw-le-cap attempt base cap = omega arith

scale : (p q d e : ℕ) → p * 1000 ≤ q → p * (1000 * d) ≤ q * d + e
scale p q d e h = omega (arith, mul-le-mul_right d h)

-- The floor of the window, before the cap is applied.
floor-le-jittered :
    (raw kept extra draws : ℕ)
    → 0 < draws
    → raw * kept / 1000 ≤ (raw * kept * draws + extra) / (1000 * draws)
floor-le-jittered raw kept extra draws h =
    (le-div_iff_mul-le (omega (arith, h))).1
      (scale (raw * kept / 1000) (raw * kept) draws extra (div-mul-le_self (raw * kept) 1000))

floor-le-cap : (raw kept cap : ℕ) → raw ≤ cap → kept ≤ 1000 → raw * kept / 1000 ≤ cap
floor-le-cap raw kept cap h k = div-le_of_le-mul 1000 (grind arith)

-- Whatever the attempt and the draw, the delay never passes the cap; and with a jitter of at most
-- the whole, it never falls below the un-jittered delay less the jitter's share of it.
backoff_window :
    (attempt base cap jitter draw draws : ℕ)
    → 0 < draws
    → (backoff_seconds attempt base cap jitter draw draws ≤ cap)
      × (raw_backoff attempt base cap * (1000 - jitter) / 1000
          ≤ backoff_seconds attempt base cap jitter draw draws)
unfolding backoff_seconds
backoff_window attempt base cap jitter draw draws h =
    let raw = raw_backoff attempt base cap in
    let low = floor-le-jittered raw (1000 - jitter) (raw * jitter * 2 * draw) draws h in
    let under = floor-le-cap raw (1000 - jitter) cap (raw-le-cap attempt base cap) (omega arith) in
    omega arith

-- A later attempt never waits less, jitter aside.
raw_monotone : (i j base cap : ℕ) → i ≤ j → raw_backoff i base cap ≤ raw_backoff j base cap
unfolding raw_backoff
raw_monotone i j base cap h =
    let grow = pow-le-pow_right {n = 2} (omega arith) {i = i - 1} {j = j - 1} (omega arith) in
    grind arith
