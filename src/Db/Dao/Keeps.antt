-- ===== src/Db/Dao/Keeps.antt =====
-- Each write path of the task table makes a step on the rows it hits.
use async_task.Prelude.{
  Option-cases, ℕ, Bool, true, false, String, Option, none, some, List, [], ◌∷◌, any, ◌≡◌, refl,
  arith,
}
use async_task.Domain.Status.{
  in_progress, TaskStatus, ErrorCode, accepted, upstream_submitted, cancelled, submit_unknown,
  mem_status,
}
use async_task.Domain.Transitions.{can_transition}
use async_task.Db.Json.{Json, Fields}
use async_task.Db.Task.{Task, Table}
use async_task.Domain.Transitions.Paths.{here}
use async_task.Prelude.{inl, inr}
use async_task.Db.Assign.{
  set_result_degraded, set_result_summary, put_result_ref, Assign, assign_all,
}
use async_task.Db.Dao.Cas.{get, cas, write}
use async_task.Db.Dao.Writes.{
  unset, mark_submit_intent, mark_submitted, set_cancel_requested, cancel_immediately_after_submit,
  set_result_ref, schedule_next_poll, record_poll_result, mark_failure, enter_unknown,
  relocate_compensate, lease_dispatch, release_submit_intent, note_attribute,
  schedule_transfer_retry, mark_result_unavailable, relocate_values, or_accepted,
}
use async_task.Db.Dao.Rows.{RowStep, TableStep, TableStep-refl, sets_status, sets_result}
use async_task.Db.Dao.Steps.{write-still, write-to, cas-TableStep}
use async_task.Db.Dao.Advance.{table_after, advance-TableStep}

-- An UPDATE whose values name neither the status nor the stored result.
cas_still :
    (now : ℕ) (id : String) (expected : List TaskStatus) (vs : List Assign) (extra : Task → Bool)
    (t : Table)
    → any sets_status vs ≡ false
    → any sets_result vs ≡ false
    → TableStep t (cas now id expected vs extra t).1
cas_still now id expected vs extra t h k =
    cas-TableStep now id expected vs extra t (λ r _ _. write-still now vs r h k)

pub mark_submit_intent-TableStep :
    (now : ℕ) (id : String) (t : Table) → TableStep t (mark_submit_intent now id t).1
unfolding mark_submit_intent
mark_submit_intent-TableStep now id t = cas_still now id _ _ _ t refl refl

from_accepted :
    (s : TaskStatus)
    → mem_status s (accepted ∷ []) ≡ true
    → can_transition s upstream_submitted ≡ true
unfolding can_transition
from_accepted s h = ground arith

pub mark_submitted-TableStep :
    (now : ℕ) (id up : String) (raw : Option String) (snap : Option Json) (at : ℕ) (t : Table)
    → TableStep t (mark_submitted now id up raw snap at t).1
unfolding mark_submitted assign_all
mark_submitted-TableStep now id up raw snap at t =
    cas-TableStep now id _ _ _ t
      (λ r m _. write-to now upstream_submitted _ r refl (from_accepted r.status m) refl)

pub set_cancel_requested-TableStep :
    (now : ℕ) (id : String) (t : Table) → TableStep t (set_cancel_requested now id t).1
unfolding set_cancel_requested
set_cancel_requested-TableStep now id t = cas_still now id _ _ _ t refl refl

from_running :
    (s : TaskStatus)
    → mem_status s (upstream_submitted ∷ in_progress ∷ []) ≡ true
    → can_transition s cancelled ≡ true
unfolding can_transition
from_running s h = ground arith

pub cancel_immediately-TableStep :
    (now : ℕ) (id : String) (t : Table) → TableStep t (cancel_immediately_after_submit now id t).1
unfolding cancel_immediately_after_submit assign_all
cancel_immediately-TableStep now id t =
    cas-TableStep now id _ _ _ t
      (λ r m _. write-to now cancelled _ r refl (from_running r.status m) refl)

unset_none : (o : Option String) (x : String) → unset o ≡ true → o ≡ some x → ⊥
unset_none o x h e = ground arith

-- The stored result is written only where there is none.
set_result_ref-RowStep :
    (now : ℕ) (ref : String) (summary : Option Json) (degraded : Option (List String)) (r : Task)
    → unset r.result_ref ≡ true
    → RowStep r (
        write now
          (put_result_ref (some ref)
            ∷ set_result_summary summary
            ∷ set_result_degraded degraded
            ∷ [])
          r)
unfolding write
set_result_ref-RowStep now ref summary degraded r u = record {
  same_id = refl;
  same_request = refl;
  path = here;
  version = omega arith;
  cancel_kept = λ h. h;
  result_kept = λ x e. absurd (unset_none r.result_ref x u e);
}

pub set_result_ref-TableStep :
    (now : ℕ) (id ref : String) (summary : Option Json) (degraded : Option (List String))
    (t : Table)
    → TableStep t (set_result_ref now id ref summary degraded t).1
unfolding set_result_ref
set_result_ref-TableStep now id ref summary degraded t =
    cas-TableStep now id _ _ _ t (λ r _ u. set_result_ref-RowStep now ref summary degraded r u)

pub schedule_next_poll-TableStep :
    (now : ℕ) (id : String) (at : ℕ) (t : Table) → TableStep t (schedule_next_poll now id at t).1
unfolding schedule_next_poll
schedule_next_poll-TableStep now id at t = cas_still now id _ _ _ t refl refl

pub record_poll_result-TableStep :
    (now : ℕ) (id : String) (snap : Option Json) (raw : Option String) (at : Option ℕ)
    (expected : List TaskStatus) (t : Table)
    → TableStep t (record_poll_result now id snap raw at expected t).1
unfolding record_poll_result
record_poll_result-TableStep now id snap raw none expected t = cas_still now id _ _ _ t refl refl
record_poll_result-TableStep now id snap raw (some at) expected t =
    cas_still now id _ _ _ t refl refl

pub mark_failure-TableStep :
    (now : ℕ) (id : String) (expected : List TaskStatus) (code : ErrorCode)
    (message : Option String) (retryable : Bool) (at : Option ℕ) (snap : Option Json) (t : Table)
    → TableStep t (mark_failure now id expected code message retryable at snap t).1
unfolding mark_failure
mark_failure-TableStep now id expected code message retryable at none t =
    cas_still now id _ _ _ t refl refl
mark_failure-TableStep now id expected code message retryable at (some s) t =
    cas_still now id _ _ _ t refl refl

pub enter_unknown-TableStep :
    (now : ℕ) (id : String) (code : ErrorCode) (message : Option String)
    (expected : Option (List TaskStatus)) (t : Table)
    → TableStep t (table_after (enter_unknown now id code message expected t) t)
unfolding enter_unknown
enter_unknown-TableStep now id code message expected t =
    advance-TableStep now id submit_unknown (some (or_accepted expected)) _ t refl

pub schedule_transfer_retry-TableStep :
    (now : ℕ) (id : String) (at attempts : ℕ) (t : Table)
    → TableStep t (schedule_transfer_retry now id at attempts t).1
unfolding schedule_transfer_retry
schedule_transfer_retry-TableStep now id at attempts t = cas_still now id _ _ _ t refl refl

pub mark_result_unavailable-TableStep :
    (now : ℕ) (id detail : String) (t : Table)
    → TableStep t (mark_result_unavailable now id detail t).1
unfolding mark_result_unavailable
mark_result_unavailable-TableStep now id detail t = cas_still now id _ _ _ t refl refl

pub lease_dispatch-TableStep :
    (now : ℕ) (id : String) (lease : ℕ) (expected : List TaskStatus) (t : Table)
    → TableStep t (lease_dispatch now id lease expected t).1
unfolding lease_dispatch
lease_dispatch-TableStep now id lease expected t = cas_still now id expected _ _ t refl refl

pub note_attribute-TableStep :
    (now : ℕ) (id : String) (attrs : List (String × Json)) (t : Table)
    → TableStep t (note_attribute now id attrs t).1
unfolding note_attribute
note_attribute-TableStep now id attrs t = elim (Option-cases (get id t)) [
  | inl e ↦ rw (e, note_attribute) (TableStep-refl t)
  | inr (r, e) ↦ rw (e, note_attribute) (cas_still now id _ _ _ t refl refl)
]

relocate_values-plain :
    (now : ℕ) (up : Option String) (target : TaskStatus) (raw : Option String) (snap : Option Json)
    (at : Option ℕ) (why : Option String)
    → any sets_result (relocate_values now up target raw snap at why) ≡ false
unfolding relocate_values
relocate_values-plain now up target raw snap at why = ground arith

pub relocate_compensate-TableStep :
    (now : ℕ) (id : String) (up : Option String) (target : TaskStatus) (raw : Option String)
    (snap : Option Json) (at : Option ℕ) (why : Option String) (t : Table)
    → TableStep t (table_after (relocate_compensate now id up target raw snap at why t) t)
unfolding relocate_compensate
relocate_compensate-TableStep now id up target raw snap at why t =
    advance-TableStep now id target (some (submit_unknown ∷ []))
      (relocate_values now up target raw snap at why) t
      (relocate_values-plain now up target raw snap at why)

pub release_submit_intent-TableStep :
    (now : ℕ) (id : String) (expected : List TaskStatus) (at : ℕ) (decr : Bool)
    (code : Option ErrorCode) (message : Option String) (retryable : Option Bool)
    (attrs : Option Fields) (deadline : Option ℕ) (t : Table)
    → TableStep t
        (release_submit_intent now id expected at decr code message retryable attrs deadline t).1
unfolding release_submit_intent
release_submit_intent-TableStep now id expected at decr code message retryable attrs deadline t =
    cas_still now id expected _ _ t (ground arith) (ground arith)
