-- ===== src/Workers/Consumer.antt =====
-- src/async_gateway/workers/worker.py: the loop of `run_worker` over the bus within the process.
-- `dispatch` is `dispatch_message`: whether it returned, and what it left. Heartbeats, metrics,
-- signals and the pause of an idle round are left out; this bus has no `claim_stale`.
pub mod Outcomes
use async_task.Prelude.{
  ℕ, suc, Bool, true, false, ◌&&◌, String, Option, none, some, List, [], ◌∷◌, leb, if◌then◌else◌,
}
use async_task.Bus.Memory.{Message, MemoryBus, consume, ack, dead_letter}

abbrev pub max_handler_failures : ℕ
max_handler_failures = 3

abbrev pub batch : ℕ
batch = 10

pub record Worker (S : Type 0) : Type 0 where
  pub world : S
  pub bus : MemoryBus
  pub processed : ℕ

abbrev pub reached : Option ℕ → ℕ → Bool
reached none n = false
reached (some limit) n = leb limit n

module _ {S : Type 0} (dispatch : Message → S → MemoryBus → Bool × S × MemoryBus) where
  -- What an exception of the handler leads to.
  unfoldable pub on_failure : String → Message → MemoryBus → MemoryBus
  unfolding dead_letter
  on_failure queue m b = if leb max_handler_failures m.deliveries then dead_letter queue m b else b

  unfoldable pub handle_one : String → Message → Worker S → Worker S
  handle_one queue m w =
      let (done, world, bus) = dispatch m w.world w.bus in
      if done
      then record { world = world; bus = ack m.message_id bus; processed = suc w.processed }
      else record { world = world; bus = on_failure queue m bus; processed = w.processed }

  -- The messages of one batch; the limit is looked at behind a message that was handled, and a
  -- limit that was reached before stops the loop over the queues.
  unfoldable pub handle_batch : Option ℕ → String → List Message → Worker S → Worker S
  handle_batch limit queue [] w = w
  handle_batch limit queue (m ∷ ms) w =
      let next = handle_one queue m w in
      let rest = handle_batch limit queue ms next in
      if (dispatch m w.world w.bus).0 && reached limit next.processed then next else rest

  unfoldable pub handle_queue : Option ℕ → String → Worker S → Worker S
  handle_queue limit queue w =
      let (messages, bus) = consume queue batch w.bus in
      handle_batch limit queue messages (record w { bus = bus })

  -- One round of the `while`, over all queues.
  unfoldable round : Option ℕ → List String → Worker S → Worker S
  round limit [] w = w
  round limit (queue ∷ queues) w =
      let next = handle_queue limit queue w in
      let rest = round limit queues next in if reached limit next.processed then next else rest
