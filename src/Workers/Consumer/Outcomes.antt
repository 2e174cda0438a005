-- ===== src/Workers/Consumer/Outcomes.antt =====
-- What becomes of the messages that a worker takes from the bus.
use async_task.Prelude.{
  ℕ, Bool, true, false, String, eq_refl, none, List, [], ◌∷◌, ◌++◌, map, leb, ◌≡◌, refl, sym, ap,
  ◌∙◌, Bool-cases, inl, inr, if◌then◌else◌,
}
use mathlib.Core.List.{append_assoc, append-nil}
use async_task.Bus.Memory.{Message, MemoryBus, consume, ack, dead_letter}
use async_task.Workers.Consumer.{
  Worker, max_handler_failures, batch, on_failure, handle_one, handle_batch, handle_queue,
}

module _ {S : Type 0} (dispatch : Message → S → MemoryBus → Bool × S × MemoryBus) where
  -- The messages of a batch, each with whether its handler returned.
  unfoldable pub outcomes : String → List Message → Worker S → List (Message × Bool)
  outcomes queue [] w = []
  outcomes queue (m ∷ ms) w =
      (m, (dispatch m w.world w.bus).0) ∷ outcomes queue ms (handle_one dispatch queue m w)

  every_message :
      (queue : String) (ms : List Message) (w : Worker S)
      → map (λ o. o.0) (outcomes queue ms w) ≡ ms
  unfolding outcomes
  every_message queue [] w = refl
  every_message queue (m ∷ ms) w =
      ap (λ t. m ∷ t) (every_message queue ms (handle_one dispatch queue m w))

abbrev pub done_ids : List (Message × Bool) → List ℕ
done_ids [] = []
done_ids ((m, true) ∷ os) = m.message_id ∷ done_ids os
done_ids ((m, false) ∷ os) = done_ids os

abbrev pub buried : List (Message × Bool) → List Message
buried [] = []
buried ((m, true) ∷ os) = buried os
buried ((m, false) ∷ os) =
    if leb max_handler_failures m.deliveries then m ∷ buried os else buried os

module _ {S : Type 0} (dispatch : Message → S → MemoryBus → Bool × S × MemoryBus)
    (keeps_acked : (m : Message) (s : S) (b : MemoryBus) → (dispatch m s b).2.acked ≡ b.acked)
    (keeps_dlq : (m : Message) (s : S) (b : MemoryBus) → (dispatch m s b).2.dlq ≡ b.dlq) where
  acked_one :
      (queue : String) (m : Message) (w : Worker S)
      → (handle_one dispatch queue m w).bus.acked
        ≡ w.bus.acked ++ done_ids ((m, (dispatch m w.world w.bus).0) ∷ [])
  unfolding handle_one on_failure ack dead_letter
  acked_one queue m w = elim (Bool-cases (dispatch m w.world w.bus).0) [
    | inl e ↦ rw (e, keeps_acked m w.world w.bus)
    | inr e ↦ elim (Bool-cases (leb max_handler_failures m.deliveries)) [
      | inl f ↦ rw (e, f) (keeps_acked m w.world w.bus ∙ sym (append-nil w.bus.acked))
      | inr f ↦ rw (e, f) (keeps_acked m w.world w.bus ∙ sym (append-nil w.bus.acked))
    ]
  ]

  dlq_one :
      (queue : String) (m : Message) (w : Worker S)
      → (handle_one dispatch queue m w).bus.dlq queue
        ≡ w.bus.dlq queue ++ buried ((m, (dispatch m w.world w.bus).0) ∷ [])
  unfolding handle_one on_failure ack dead_letter
  dlq_one queue m w = elim (Bool-cases (dispatch m w.world w.bus).0) [
    | inl e ↦ rw (e, keeps_dlq m w.world w.bus) (sym (append-nil (w.bus.dlq queue)))
    | inr e ↦ elim (Bool-cases (leb max_handler_failures m.deliveries)) [
      | inl f ↦ rw (e, f, keeps_dlq m w.world w.bus, eq_refl queue)
      | inr f ↦ rw (e, f, keeps_dlq m w.world w.bus) (sym (append-nil (w.bus.dlq queue)))
    ]
  ]

  never_reached :
      (queue : String) (m : Message) (ms : List Message) (w : Worker S)
      → handle_batch dispatch none queue (m ∷ ms) w
        ≡ handle_batch dispatch none queue ms (handle_one dispatch queue m w)
  unfolding handle_batch
  never_reached queue m ms w = elim (Bool-cases (dispatch m w.world w.bus).0) [
    | inl e ↦ rw e
    | inr e ↦ rw e
  ]

  done_ids-cons :
      (o : Message × Bool) (os : List (Message × Bool))
      → done_ids (o ∷ os) ≡ done_ids (o ∷ []) ++ done_ids os
  done_ids-cons (m, true) os = refl
  done_ids-cons (m, false) os = refl

  buried-cons :
      (o : Message × Bool) (os : List (Message × Bool))
      → buried (o ∷ os) ≡ buried (o ∷ []) ++ buried os
  buried-cons (m, true) os = refl
  buried-cons (m, false) os = elim (Bool-cases (leb max_handler_failures m.deliveries)) [
    | inl e ↦ rw e
    | inr e ↦ rw e
  ]

  acked_batch :
      (queue : String) (ms : List Message) (w : Worker S)
      → (handle_batch dispatch none queue ms w).bus.acked
        ≡ w.bus.acked ++ done_ids (outcomes dispatch queue ms w)
  unfolding outcomes
  acked_batch queue [] w = unfold handle_batch in sym (append-nil w.bus.acked)
  acked_batch queue (m ∷ ms) w =
      ap (λ r. r.bus.acked) (never_reached queue m ms w)
      ∙ acked_batch queue ms (handle_one dispatch queue m w)
      ∙ ap (λ t. t ++ done_ids (outcomes dispatch queue ms (handle_one dispatch queue m w)))
          (acked_one queue m w)
      ∙ append_assoc w.bus.acked _ _
      ∙ ap (λ t. w.bus.acked ++ t)
          (sym (
            done_ids-cons (m, (dispatch m w.world w.bus).0)
              (outcomes dispatch queue ms (handle_one dispatch queue m w))))

  dlq_batch :
      (queue : String) (ms : List Message) (w : Worker S)
      → (handle_batch dispatch none queue ms w).bus.dlq queue
        ≡ w.bus.dlq queue ++ buried (outcomes dispatch queue ms w)
  unfolding outcomes
  dlq_batch queue [] w = unfold handle_batch in sym (append-nil (w.bus.dlq queue))
  dlq_batch queue (m ∷ ms) w =
      ap (λ r. r.bus.dlq queue) (never_reached queue m ms w)
      ∙ dlq_batch queue ms (handle_one dispatch queue m w)
      ∙ ap (λ t. t ++ buried (outcomes dispatch queue ms (handle_one dispatch queue m w)))
          (dlq_one queue m w)
      ∙ append_assoc (w.bus.dlq queue) _ _
      ∙ ap (λ t. w.bus.dlq queue ++ t)
          (sym (
            buried-cons (m, (dispatch m w.world w.bus).0)
              (outcomes dispatch queue ms (handle_one dispatch queue m w))))

  -- Without a limit a worker dispatches every message of the batch that it takes from a queue, in
  -- order, whichever handlers raise; exactly the messages whose handlers return are acknowledged,
  -- and exactly those that fail at their third delivery or later go to the dead letters of the
  -- queue. The handlers leave the acknowledgements and the dead letters alone.
  pub batch_accounted :
      (queue : String) (w : Worker S)
      → (let taken = consume queue batch w.bus in
          let start : Worker S = record w { bus = taken.1 } in
          let os = outcomes dispatch queue taken.0 start in
          (map (λ o. o.0) os ≡ taken.0)
          × ((handle_queue dispatch none queue w).bus.acked ≡ w.bus.acked ++ done_ids os)
          × ((handle_queue dispatch none queue w).bus.dlq queue ≡ w.bus.dlq queue ++ buried os))
  unfolding handle_queue consume
  batch_accounted queue w =
      (every_message dispatch queue _ _, acked_batch queue _ _, dlq_batch queue _ _)
