-- ===== src/Db/Dao/History.antt =====
-- What any history of calls keeps: the whitelist, the keys, the versions and stored results.
use async_task.Prelude.{◌⊎◌, ℕ, true, String, some, List, [], ◌∷◌, All, ◌≡◌, arith}
use async_task.Db.Task.{Task, Table}
use async_task.Db.Dao.Cas.{get}
use async_task.Db.Dao.Calls.{Call, perform, run, IsPlain, is_plain}
use async_task.Db.Dao.Rows.{RowStep, TableStep, TableStep-refl, TableStep-trans, get-TableStep}
use async_task.Db.Dao.Keeps.{
  mark_submit_intent-TableStep, mark_submitted-TableStep, set_cancel_requested-TableStep,
  cancel_immediately-TableStep, set_result_ref-TableStep, schedule_next_poll-TableStep,
  record_poll_result-TableStep, mark_failure-TableStep, enter_unknown-TableStep,
  relocate_compensate-TableStep, lease_dispatch-TableStep, release_submit_intent-TableStep,
  note_attribute-TableStep, schedule_transfer_retry-TableStep, mark_result_unavailable-TableStep,
}
use async_task.Domain.Transitions.{is_business_terminal}
use async_task.Domain.Transitions.Paths.{terminal_absorbs}
use async_task.Domain.Status.{dead, dead_awaiting_confirm}
use async_task.Db.Dao.Advance.{table_after, advance-TableStep}

pub perform-TableStep :
    (now : ℕ) (c : Call) (t : Table)
    → is_plain c ≡ true
    → TableStep t (table_after (perform now c t) t)
unfolding perform
perform-TableStep now (Call.mark_submit_intent id) t h = mark_submit_intent-TableStep now id t
perform-TableStep now (Call.mark_submitted id up raw snap at) t h =
    mark_submitted-TableStep now id up raw snap at t
perform-TableStep now (Call.advance id dst expected vs) t h =
    advance-TableStep now id dst expected vs t (ground arith)
perform-TableStep now (Call.set_cancel_requested id) t h = set_cancel_requested-TableStep now id t
perform-TableStep now (Call.cancel_immediately_after_submit id) t h =
    cancel_immediately-TableStep now id t
perform-TableStep now (Call.set_result_ref id ref summary degraded) t h =
    set_result_ref-TableStep now id ref summary degraded t
perform-TableStep now (Call.schedule_next_poll id at) t h = schedule_next_poll-TableStep now id at t
perform-TableStep now (Call.record_poll_result id snap raw at expected) t h =
    record_poll_result-TableStep now id snap raw at expected t
perform-TableStep now (Call.mark_failure id expected code message retryable at snap) t h =
    mark_failure-TableStep now id expected code message retryable at snap t
perform-TableStep now (Call.enter_unknown id code message expected) t h =
    enter_unknown-TableStep now id code message expected t
perform-TableStep now (Call.relocate_compensate id up target raw snap at why) t h =
    relocate_compensate-TableStep now id up target raw snap at why t
perform-TableStep now (Call.lease_dispatch id lease expected) t h =
    lease_dispatch-TableStep now id lease expected t
perform-TableStep now
      (Call.release_submit_intent id expected at decr code message retryable attrs deadline) t h =
    release_submit_intent-TableStep now id expected at decr code message retryable attrs deadline t
perform-TableStep now (Call.note_attribute id attrs) t h = note_attribute-TableStep now id attrs t
perform-TableStep now (Call.schedule_transfer_retry id at attempts) t h =
    schedule_transfer_retry-TableStep now id at attempts t
perform-TableStep now (Call.mark_result_unavailable id detail) t h =
    mark_result_unavailable-TableStep now id detail t

pub run-TableStep :
    (calls : List (ℕ × Call)) (t : Table) → All IsPlain calls → TableStep t (run calls t)
unfolding run
run-TableStep [] t h = TableStep-refl t
run-TableStep ((now, c) ∷ rest) t h =
    let t' = table_after (perform now c t) t in
    TableStep-trans t t' (run rest t') (perform-TableStep now c t h.0) (run-TableStep rest t' h.1)

-- However many workers interleave their calls of the data access object, a row that is in the
-- table stays in it under its key; its status has moved along the whitelist, its version has not
-- fallen, a cancellation that was requested still is, and a stored result is still the same. No
-- call passes `result_ref` among the free arguments of `advance`.
history_follows_whitelist :
    (calls : List (ℕ × Call)) (t : Table) (id : String) {r : Task}
    → All IsPlain calls
    → get id t ≡ some r
    → (s : Task) × (get id (run calls t) ≡ some s) × RowStep r s
history_follows_whitelist calls t id h e =
    get-TableStep id t (run calls t) (run-TableStep calls t h) e

-- A task in a business terminal state keeps that state through every interleaving of calls, but
-- that a task awaiting confirmation may be closed as dead.
pub terminal_once :
    (calls : List (ℕ × Call)) (t : Table) (id : String) {r : Task}
    → All IsPlain calls
    → get id t ≡ some r
    → is_business_terminal r.status ≡ true
    → (s : Task) × (get id (run calls t) ≡ some s)
      × ((s.status ≡ r.status) ⊎ ((r.status ≡ dead_awaiting_confirm) × (s.status ≡ dead)))
terminal_once calls t id h e b =
    let (s, found, st) = history_follows_whitelist calls t id h e in
    (s, found, terminal_absorbs st.path b)
