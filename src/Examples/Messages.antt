-- ===== src/Examples/Messages.antt =====
-- The theorems on the bus, the worker, the audit log and the callbacks at concrete inputs.
use async_task.Prelude.{
  ℕ, ◌++◌, ◌≡◌, ◌⊎◌, Bool, true, String, str_eq, none, some, List, [], ◌∷◌, map, refl,
}
use async_task.Db.Json.{end}
use async_task.Db.Task.{Task}
use async_task.Tasks.World.{Env}
use async_task.Bus.Memory.{Message, MemoryBus, consume}
use async_task.Bus.Memory.Fifo.{Use, enqueues, consumes, acks, use_all, delivers_in_order}
use async_task.Workers.Consumer.{Worker, batch, handle_queue}
use async_task.Workers.Consumer.Outcomes.{outcomes, done_ids, buried, batch_accounted}
use async_task.Db.Audit.{AuditEvent, Entry, tail_hash, verify_rows, verify_chain}
use async_task.Db.Audit.Pins.{materials, Colliding, tail_pins_log}
use async_task.Gateway.Callbacks.{
  Delivery, Inbox, duplicate, find_by_callback_token, callback_dedup_key, key_of, receive_callback,
}
use async_task.Gateway.Callbacks.Dedup.{receive_all, event_applied_once}
use async_task.Examples.Samples.{answering, created_body, new_task, rows}

abbrev empty_bus : MemoryBus
empty_bus = record { max_depth = 2; queues = λ q. []; dlq = λ q. []; acked = []; counter = 0 }

-- Of three messages the third finds the queue full.
abbrev uses : List Use
uses =
    enqueues "poll:heavy" "poll_upstream" end
    ∷ enqueues "submit" "submit_upstream" end
    ∷ enqueues "poll:heavy" "cancel_upstream" end
    ∷ enqueues "poll:heavy" "store_result" end
    ∷ consumes "poll:heavy" 1
    ∷ acks 1
    ∷ []

delivers_in_order_example :
    (use_all "poll:heavy" uses empty_bus).delivered
      ++ (use_all "poll:heavy" uses empty_bus).bus.queues "poll:heavy"
    ≡ empty_bus.queues "poll:heavy" ++ (use_all "poll:heavy" uses empty_bus).accepted
delivers_in_order_example = delivers_in_order "poll:heavy" uses empty_bus

abbrev message : String → ℕ → ℕ → Message
message name id deliveries = record {
  name = name;
  payload = end;
  message_id = id;
  deliveries = deliveries;
}

-- One message is handled, one fails for the first time and one for the third.
abbrev busy : Worker ℕ
busy = record {
  world = 0;
  bus = record empty_bus {
    queues = λ q.
        message "store_result" 1 1 ∷ message "poll_upstream" 2 1 ∷ message "poll_upstream" 3 3 ∷ [];
  };
  processed = 0;
}

abbrev stores_only : Message → ℕ → MemoryBus → Bool × ℕ × MemoryBus
stores_only m s b = (str_eq m.name "store_result", s, b)

batch_accounted_example :
    (map
        (λ o. o.0)
        (outcomes stores_only "poll"
          (consume "poll" batch busy.bus).0
          (record busy { bus = (consume "poll" batch busy.bus).1 }))
      ≡ (consume "poll" batch busy.bus).0)
    × ((handle_queue stores_only none "poll" busy).bus.acked
        ≡ busy.bus.acked
          ++ done_ids (
              outcomes stores_only "poll"
                (consume "poll" batch busy.bus).0
                (record busy { bus = (consume "poll" batch busy.bus).1 })))
    × ((handle_queue stores_only none "poll" busy).bus.dlq "poll"
        ≡ busy.bus.dlq "poll"
          ++ buried (
              outcomes stores_only "poll"
                (consume "poll" batch busy.bus).0
                (record busy { bus = (consume "poll" batch busy.bus).1 })))
batch_accounted_example = batch_accounted stores_only (λ m s b. refl) (λ m s b. refl) "poll" busy

abbrev entry : String → Entry
entry actor = record {
  event_type = "task_cancelled";
  actor = actor;
  actor_role = none;
  subject_type = some "task";
  subject_id = some "t1";
  payload_digest = none;
  refs = none;
  detail = none;
  created_at = 1_000_000;
}

-- A digest that is the text itself.
abbrev plain : String → String
plain s = s

abbrev noon : ℕ → String
noon at = "2024-01-01T12:00:00.000000"

abbrev log_row : String → AuditEvent
log_row actor = record {
  event_type = "task_cancelled";
  actor = actor;
  actor_role = none;
  subject_type = some "task";
  subject_id = some "t1";
  payload_digest = none;
  refs = none;
  detail = none;
  prev_hash = none;
  hash = "h";
  created_at = 1_000_000;
}

-- Where the digest is constant, two logs of different actors have the same last hash.
tail_pins_log_example :
    Colliding
      (λ s. "h")
      (materials (λ s. "h") noon none (log_row "alice" ∷ []))
      (materials (λ s. "h") noon none (log_row "bob" ∷ []))
    ⊎ (materials (λ s. "h") noon none (log_row "alice" ∷ [])
        ≡ materials (λ s. "h") noon none (log_row "bob" ∷ []))
unfolding verify_chain verify_rows tail_hash
tail_pins_log_example =
    tail_pins_log (λ s. "h") noon (λ x y. refl) (log_row "alice") (log_row "bob") [] [] refl refl
      refl refl

abbrev env : Env (Unit {0})
env = answering 200 created_body

abbrev delivery : String → Delivery
delivery digest = record {
  verified = true;
  token = "tok";
  event_id = some "e1";
  upstream_header = none;
  channel_header = none;
  payload = created_body;
  digest = digest;
}

abbrev empty_inbox : Inbox
empty_inbox = record { events = []; orphans = [] }

-- The row that the token leads to.
abbrev awaiting : Task
awaiting = record new_task { callback_token = some "tok" }

-- The event comes again with another body, behind an event of another task.
event_applied_once_example :
    receive_callback env (delivery "d2") (awaiting ∷ []) (
      receive_all env
        ((delivery "d3", rows) ∷ [])
        (receive_callback env (delivery "d1") (awaiting ∷ rows) empty_inbox).1)
    ≡ (
      duplicate,
      receive_all env
          ((delivery "d3", rows) ∷ [])
          (receive_callback env (delivery "d1") (awaiting ∷ rows) empty_inbox).1,
    )
unfolding find_by_callback_token key_of callback_dedup_key
event_applied_once_example =
    event_applied_once env (delivery "d1") (delivery "d2") (awaiting ∷ rows) (awaiting ∷ [])
      ((delivery "d3", rows) ∷ []) empty_inbox refl refl refl
