-- ===== src/Tasks/World/Controller.antt =====
-- The controller of infra/polling.py behind the interface that the handlers use.
use async_task.Infra.Polling
use async_task.Infra.Polling.{PollLimits, Adaptive}
use async_task.Tasks.World

abbrev pub memory_polling : PollLimits → World.Polling Adaptive
memory_polling limits = record {
  next_interval = Polling.next_interval limits;
  base_interval = Polling.base_interval limits;
  note_rate_limited = Polling.note_rate_limited limits;
  decay_if_clean = Polling.decay_if_clean;
  paused_for = Polling.paused_for;
  record_terminal = Polling.record_terminal;
}
