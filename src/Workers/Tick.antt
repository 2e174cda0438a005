-- ===== src/Workers/Tick.antt =====
-- src/async_gateway/workers/inspector.py: `run_tick`. The gauges are left out.
use async_task.Prelude.{ℕ, Option, String}
use async_task.Tasks.World.{Env, M, pure, ◌>>=◌}
use async_task.Workers.Inspector.{
  scan_accepted_stalls, scan_deadlines, reconcile_orphans, dispatch_pending_transfers,
  calibrate_concurrency,
}
use async_task.Workers.Unknowns.{bound_unknowns}

-- The settings that a tick reads; the durations are in microseconds.
pub record TickSettings : Type 0 where
  pub accepted_stall : ℕ
  pub unknown_max_per_channel : ℕ
  pub unknown_max_lifetime : ℕ

pub record TickSummary : Type 0 where
  pub accepted_stalls : ℕ
  pub deadlines : ℕ
  pub unknown_bounded : ℕ
  pub orphans : ℕ
  pub transfers : ℕ
  pub calibrated_channels : ℕ

-- The default of `reconcile_orphans`.
abbrev orphan_stall : ℕ
orphan_stall = 180_000_000

unfoldable pub run_tick :
    {P : Type 0} → Env P → TickSettings → (Option ℕ → String) → M P TickSummary
run_tick env settings deadline = do
  accepted ← scan_accepted_stalls env settings.accepted_stall
  overdue ← scan_deadlines deadline
  unknown ← bound_unknowns settings.unknown_max_per_channel settings.unknown_max_lifetime
  orphans ← reconcile_orphans env orphan_stall
  transfers ← dispatch_pending_transfers env
  calibrated ← calibrate_concurrency
  pure (record {
    accepted_stalls = accepted;
    deadlines = overdue;
    unknown_bounded = unknown;
    orphans = orphans;
    transfers = transfers;
    calibrated_channels = calibrated;
  })
