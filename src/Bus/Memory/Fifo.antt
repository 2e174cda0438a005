-- ===== src/Bus/Memory/Fifo.antt =====
-- The bus is a first-in first-out queue for each name: what was delivered and what waits is what
-- was accepted, in that order.
use async_task.Prelude.{
  ℕ, zero, suc, true, false, String, str_eq, eq_iff, none, some, List, [], ◌∷◌, ◌++◌, leb, take,
  ◌≡◌, refl, sym, ap, subst, ◌∙◌, Bool-cases, inl, inr, if◌then◌else◌,
}
use mathlib.Core.List.{append_assoc, append-nil}
use async_task.Db.Json.{Fields}
use async_task.Bus.Memory.{
  Message, MemoryBus, put, drop, batch_size, depth, enqueue, consume, ack, dead_letter,
}

-- What the program does with the bus, but for `drain`, which throws away what waits.
pub data Use : Type 0 where
  enqueues : String → String → Fields → Use
  consumes : String → ℕ → Use
  acks : ℕ → Use
  buries : String → Message → Use

-- One use: the bus afterwards, what the queue accepted and what it delivered.
pub record Effect : Type 0 where
  pub bus : MemoryBus
  pub accepted : List Message
  pub delivered : List Message

abbrev nothing : MemoryBus → Effect
nothing b = record { bus = b; accepted = []; delivered = [] }

abbrev pub new_message : String → Fields → MemoryBus → Message
new_message name payload b = record {
  name = name;
  payload = payload;
  message_id = suc b.counter;
  deliveries = 1;
}

-- As far as the queue `q` is concerned.
unfoldable pub use_once : String → Use → MemoryBus → Effect
use_once q (enqueues queue name payload) b = elim (enqueue queue name payload b) [
  | none ↦ nothing b
  | some (id, b') ↦ record {
    bus = b';
    accepted = if str_eq q queue then new_message name payload b ∷ [] else [];
    delivered = [];
  }
]
use_once q (consumes queue count) b = record {
  bus = (consume queue count b).1;
  accepted = [];
  delivered = if str_eq q queue then (consume queue count b).0 else [];
}
use_once q (acks id) b = nothing (ack id b)
use_once q (buries queue m) b = nothing (dead_letter queue m b)

unfoldable pub use_all : String → List Use → MemoryBus → Effect
use_all q [] b = nothing b
use_all q (u ∷ us) b =
    let first = use_once q u b in
    let later = use_all q us first.bus in
    record {
      bus = later.bus;
      accepted = first.accepted ++ later.accepted;
      delivered = first.delivered ++ later.delivered;
    }

take-drop : (n : ℕ) (xs : List Message) → take n xs ++ drop n xs ≡ xs
take-drop zero xs = refl
take-drop (suc n) [] = refl
take-drop (suc n) (x ∷ xs) = ap (λ t. x ∷ t) (take-drop n xs)

-- The bus behind an enqueue that is accepted.
abbrev with_message : String → String → Fields → MemoryBus → MemoryBus
with_message queue name payload b = record b {
  counter = suc b.counter;
  queues = put queue (b.queues queue ++ new_message name payload b ∷ []) b.queues;
}

enqueue_full :
    (q n : String) (p : Fields) (b : MemoryBus)
    → leb b.max_depth (depth q b) ≡ true
    → enqueue q n p b ≡ none
unfolding enqueue
enqueue_full q n p b h = rw h

enqueue_fits :
    (q n : String) (p : Fields) (b : MemoryBus)
    → leb b.max_depth (depth q b) ≡ false
    → enqueue q n p b ≡ some (suc b.counter, with_message q n p b)
unfolding enqueue
enqueue_fits q n p b h = rw h

once_accepted :
    (q queue name : String) (payload : Fields) (b : MemoryBus)
    → leb b.max_depth (depth queue b) ≡ false
    → use_once q (enqueues queue name payload) b ≡ record {
      bus = with_message queue name payload b;
      accepted = if str_eq q queue then new_message name payload b ∷ [] else [];
      delivered = [];
    }
unfolding use_once
once_accepted q queue name payload b h = rw (use_once, enqueue_fits queue name payload b h)

once_refused :
    (q queue name : String) (payload : Fields) (b : MemoryBus)
    → leb b.max_depth (depth queue b) ≡ true
    → use_once q (enqueues queue name payload) b ≡ nothing b
unfolding use_once
once_refused q queue name payload b h = rw (use_once, enqueue_full queue name payload b h)

-- What an effect on a queue that had `before` must be.
abbrev Fifo : String → List Message → Effect → Type 0
Fifo q before e = e.delivered ++ e.bus.queues q ≡ before ++ e.accepted

fifo_accepted :
    (q queue : String) (m : Message) (b : MemoryBus)
    → put queue (b.queues queue ++ m ∷ []) b.queues q
      ≡ b.queues q ++ (if str_eq q queue then m ∷ [] else [])
fifo_accepted q queue m b = elim (Bool-cases (str_eq q queue)) [
  | inl e ↦ rw (e, (eq_iff q queue).0 e)
  | inr e ↦ rw e (sym (append-nil (b.queues q)))
]

fifo_consumed :
    (q queue : String) (n : ℕ) (b : MemoryBus)
    → (if str_eq q queue then take n (b.queues queue) else [])
        ++ put queue (drop n (b.queues queue)) b.queues q
      ≡ b.queues q
fifo_consumed q queue n b = elim (Bool-cases (str_eq q queue)) [
  | inl e ↦ rw (e, take-drop n (b.queues queue)) (ap b.queues (sym ((eq_iff q queue).0 e)))
  | inr e ↦ rw e
]

once_in_order : (q : String) (u : Use) (b : MemoryBus) → Fifo q (b.queues q) (use_once q u b)
unfolding use_once consume ack dead_letter
once_in_order q (enqueues queue name payload) b =
    elim (Bool-cases (leb b.max_depth (depth queue b))) [
      | inl e ↦
          subst (Fifo q (b.queues q)) (sym (once_refused q queue name payload b e))
            (sym (append-nil (b.queues q)))
      | inr e ↦
          subst (Fifo q (b.queues q)) (sym (once_accepted q queue name payload b e))
            (fifo_accepted q queue (new_message name payload b) b)
    ]
once_in_order q (consumes queue count) b =
    fifo_consumed q queue (batch_size count) b ∙ sym (append-nil (b.queues q))
once_in_order q (acks id) b = sym (append-nil (b.queues q))
once_in_order q (buries queue m) b = sym (append-nil (b.queues q))

-- Through any sequence of `enqueue`, `consume`, `ack` and `dead_letter`, none of which is `drain`,
-- a queue has delivered its messages in the order in which it accepted them, none twice and none
-- left out: the delivered ones and then the waiting ones are those that were waiting at first and
-- then the accepted ones.
pub delivers_in_order :
    (q : String) (us : List Use) (b : MemoryBus)
    → (use_all q us b).delivered ++ (use_all q us b).bus.queues q
      ≡ b.queues q ++ (use_all q us b).accepted
unfolding use_all
delivers_in_order q [] b = sym (append-nil (b.queues q))
delivers_in_order q (u ∷ us) b =
    let first = use_once q u b in
    let later = use_all q us first.bus in
    append_assoc first.delivered later.delivered (later.bus.queues q)
    ∙ ap (λ t. first.delivered ++ t) (delivers_in_order q us first.bus)
    ∙ sym (append_assoc first.delivered (first.bus.queues q) later.accepted)
    ∙ ap (λ t. t ++ later.accepted) (once_in_order q u b)
    ∙ append_assoc (b.queues q) first.accepted later.accepted
