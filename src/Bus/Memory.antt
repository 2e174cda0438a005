-- ===== src/Bus/Memory.antt =====
-- src/async_gateway/bus/base.py and bus/memory.py: messages, and the bus within the process. A queue
-- that is not there yet is empty. `consume` is modelled where a message waits or none comes.
pub mod Fifo
use async_task.Prelude.{
  ℕ, zero, suc, ◌+◌, ◌-◌, Bool, true, false, String, str_eq, Option, none, some, List, [], ◌∷◌,
  ◌++◌, leb, length, take, if◌then◌else◌,
}
use async_task.Db.Json.{Fields}

pub record Message : Type 0 where
  pub name : String
  pub payload : Fields
  -- the number in the id `mem-…`
  pub message_id : ℕ
  pub deliveries : ℕ

pub record MemoryBus : Type 0 where
  pub max_depth : ℕ
  pub queues : String → List Message
  pub dlq : String → List Message
  pub acked : List ℕ
  pub counter : ℕ

abbrev pub put {ℓ} : {A : Type ℓ} → String → A → (String → A) → String → A
put key value d k = if str_eq k key then value else d k

abbrev pub drop {ℓ} : {A : Type ℓ} → ℕ → List A → List A
drop zero xs = xs
drop (suc n) [] = []
drop (suc n) (x ∷ xs) = drop n xs

-- `depth`
unfoldable pub depth : String → MemoryBus → ℕ
depth queue b = length (b.queues queue)

-- `none` is `QueueSaturated`.
unfoldable pub enqueue : String → String → Fields → MemoryBus → Option (ℕ × MemoryBus)
unfolding depth
enqueue queue name payload b =
    if leb b.max_depth (depth queue b)
    then none
    else some (
      suc b.counter,
      record b {
        counter = suc b.counter;
        queues =
            put queue
              (b.queues queue
                ++ record {
                  name = name;
                  payload = payload;
                  message_id = suc b.counter;
                  deliveries = 1;
                }
                  ∷ [])
              b.queues;
      },
    )

-- The first message is taken whatever `count` is.
abbrev pub batch_size : ℕ → ℕ
batch_size count = suc (count - 1)

unfoldable pub consume : String → ℕ → MemoryBus → List Message × MemoryBus
consume queue count b = (
  take (batch_size count) (b.queues queue),
  record b { queues = put queue (drop (batch_size count) (b.queues queue)) b.queues },
)

unfoldable pub ack : ℕ → MemoryBus → MemoryBus
ack id b = record b { acked = b.acked ++ id ∷ [] }

unfoldable pub dead_letter : String → Message → MemoryBus → MemoryBus
dead_letter queue m b = record b { dlq = put queue (b.dlq queue ++ m ∷ []) b.dlq }

unfoldable drain : String → MemoryBus → ℕ × MemoryBus
drain queue b = (length (b.queues queue), record b { queues = put queue [] b.queues })
