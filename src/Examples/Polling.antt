-- ===== src/Examples/Polling.antt =====
-- The theorems on the adaptive polling at concrete inputs.
use async_task.Prelude.{◌≤◌, false, none, ◌≡◌, arith}
use async_task.Infra.Polling.{
  PollLimits, Adaptive, aimd_min, current_multiplier, base_interval, next_interval,
  note_rate_limited, record_terminal, stats,
}
use async_task.Infra.Polling.Multipliers.{
  fresh, rate_limited, terminal, nothing, max_multiplier, multiplier-Reachable, clean_periods,
  recovers,
}

abbrev limits : PollLimits
limits = record {
  base = 5_000_000;
  minimum = 2_000_000;
  maximum = 60_000_000;
  initial = 5_000_000;
  hot_start_samples = 1;
}

-- One sample of 25 seconds, and one answer 429.
abbrev slowed : Adaptive
slowed =
    note_rate_limited limits "video" none 9_000_000 (record_terminal "video" 25_000_000 nothing)

multiplier-Reachable_example :
    (aimd_min ≤ current_multiplier "video" slowed)
    × (current_multiplier "video" slowed ≤ max_multiplier limits)
    × (base_interval limits "video" 70_000_000 false slowed
        ≤ next_interval limits "video" 70_000_000 false slowed)
multiplier-Reachable_example =
    multiplier-Reachable limits "video" 70_000_000 false (omega arith) (omega arith)
      (rate_limited "video" none 9_000_000 (terminal "video" 25_000_000 fresh))

recovers_example : current_multiplier "video" (clean_periods 10 "video" slowed) ≡ aimd_min
unfolding note_rate_limited record_terminal async_task.Infra.Limiter.Counters.put
    async_task.Infra.Polling.entry
recovers_example = recovers 10 "video" slowed (omega arith) (omega arith)
