-- ===== src/Domain/Transitions/Paths.antt =====
-- Chains of whitelisted transitions, as a step relation, and what they can reach.
use async_task.Prelude.{◌≡◌, ◌≢◌, ◌⊎◌, ◌↔◌, inl, refl, true, false, arith}
use async_task.Domain.Status.{
  TaskStatus, failed, succeeded, dead, dead_awaiting_confirm, out_in_progress, out_succeeded,
}
use async_task.Domain.Transitions.{
  can_transition, is_business_terminal, is_terminal_for_output, output_terminal,
}

-- A chain of transitions, each of them on the whitelist.
infix 40 ◌⟶*◌
pub data ◌⟶*◌ : TaskStatus → TaskStatus → Type 0 where
  here : {s : TaskStatus} → s ⟶* s
  step : {s t u : TaskStatus} → s ⟶* t → can_transition t u ≡ true → s ⟶* u

pub ⟶*-trans : {s t u : TaskStatus} → s ⟶* t → t ⟶* u → s ⟶* u
⟶*-trans p here = p
⟶*-trans p (step q e) = step (⟶*-trans p q) e

-- The states that a business terminal state can still come to.
can_leave_terminal :
    (t u : TaskStatus)
    → is_business_terminal t ≡ true
    → can_transition t u ≡ true
    → (t ≡ dead_awaiting_confirm) × (u ≡ dead)
unfolding can_transition is_business_terminal
can_leave_terminal t u h e = ground arith

-- A chain from a business terminal state stays where it is, or closes a task that awaited
-- confirmation as dead.
pub terminal_absorbs :
    {s t : TaskStatus}
    → s ⟶* t
    → is_business_terminal s ≡ true
    → (t ≡ s) ⊎ ((s ≡ dead_awaiting_confirm) × (t ≡ dead))
unfolding is_business_terminal
terminal_absorbs here h = inl refl
terminal_absorbs (step {t = t} {u} p e) h =
    ground (arith, terminal_absorbs p h, can_leave_terminal t u)

-- Once the output says that a task succeeded or failed for good, no chain of transitions
-- changes what it says.
output_stable :
    {s t : TaskStatus}
    → s ⟶* t
    → is_terminal_for_output s ≡ true
    → output_terminal t ≡ output_terminal s
unfolding is_terminal_for_output output_terminal
output_stable p h = ground (arith, terminal_absorbs p h)

-- The three output values: success exactly for `succeeded`; in progress exactly for the five
-- live states; a failure for the other terminal states and for `failed`.
output_terminal_iff :
    (s : TaskStatus)
    → ((output_terminal s ≡ out_succeeded) ↔ (s ≡ succeeded))
      × ((output_terminal s ≡ out_in_progress) ↔ ((is_business_terminal s ≡ false) × (s ≢ failed)))
unfolding output_terminal is_business_terminal
output_terminal_iff s = ground arith
