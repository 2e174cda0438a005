-- ===== src/Outcome.antt =====
-- Python's exceptions as values: the ones that the modelled code raises, and a result.
use async_task.Domain.Status.{TaskStatus}

pub data Fault : Type 0 where
  -- domain/state_machine.py
  transition_error : TaskStatus → TaskStatus → Fault
  -- infra/request_store.py
  request_data_not_found : Fault
  -- templates/render.py
  render_error : Fault
  -- bus/base.py
  queue_saturated : Fault
  -- templates/registry.py
  unknown_template : Fault
  -- tasks/handlers.py, `dispatch_message`
  key_error : Fault
  -- a failed `int(...)` or another error of a library
  library_error : Fault

pub data Result {ℓ} (A : Type ℓ) : Type ℓ where
  ok : A → Result A
  raised : Fault → Result A
