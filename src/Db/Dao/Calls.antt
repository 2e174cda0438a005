-- ===== src/Db/Dao/Calls.antt =====
-- The write methods of `TaskDAO` as data, so that a history is a list of calls: whatever workers,
-- schedulers, inspectors and callbacks do to the table, in whatever order, is such a list.
use async_task.Prelude.{ℕ, Bool, true, not, String, Option, List, [], ◌∷◌, any, ◌≡◌}
use async_task.Domain.Status.{TaskStatus, ErrorCode}
use async_task.Outcome.{ok}
use async_task.Db.Json.{Json, Fields}
use async_task.Db.Task.{Table}
use async_task.Db.Assign.{Assign}
use async_task.Db.Dao.Cas
use async_task.Db.Dao.Cas.{Written}
use async_task.Db.Dao.Writes
use async_task.Db.Dao.Rows.{sets_result}
use async_task.Db.Dao.Advance.{table_after}

pub data Call : Type 0 where
  mark_submit_intent : String → Call
  mark_submitted : String → String → Option String → Option Json → ℕ → Call
  advance : String → TaskStatus → Option (List TaskStatus) → List Assign → Call
  set_cancel_requested : String → Call
  cancel_immediately_after_submit : String → Call
  set_result_ref : String → String → Option Json → Option (List String) → Call
  schedule_next_poll : String → ℕ → Call
  record_poll_result : String → Option Json → Option String → Option ℕ → List TaskStatus → Call
  mark_failure :
      String → List TaskStatus → ErrorCode → Option String → Bool → Option ℕ → Option Json → Call
  enter_unknown : String → ErrorCode → Option String → Option (List TaskStatus) → Call
  relocate_compensate :
      String
      → Option String
      → TaskStatus
      → Option String
      → Option Json
      → Option ℕ
      → Option String
      → Call
  lease_dispatch : String → ℕ → List TaskStatus → Call
  release_submit_intent :
      String
      → List TaskStatus
      → ℕ
      → Bool
      → Option ErrorCode
      → Option String
      → Option Bool
      → Option Fields
      → Option ℕ
      → Call
  note_attribute : String → List (String × Json) → Call
  schedule_transfer_retry : String → ℕ → ℕ → Call
  mark_result_unavailable : String → String → Call

unfoldable pub perform : ℕ → Call → Table → Written
perform now (mark_submit_intent id) t = ok (Writes.mark_submit_intent now id t)
perform now (mark_submitted id up raw snap at) t =
    ok (Writes.mark_submitted now id up raw snap at t)
perform now (advance id dst expected vs) t = Cas.advance now id dst expected vs t
perform now (set_cancel_requested id) t = ok (Writes.set_cancel_requested now id t)
perform now (cancel_immediately_after_submit id) t =
    ok (Writes.cancel_immediately_after_submit now id t)
perform now (set_result_ref id ref summary degraded) t =
    ok (Writes.set_result_ref now id ref summary degraded t)
perform now (schedule_next_poll id at) t = ok (Writes.schedule_next_poll now id at t)
perform now (record_poll_result id snap raw at expected) t =
    ok (Writes.record_poll_result now id snap raw at expected t)
perform now (mark_failure id expected code message retryable at snap) t =
    ok (Writes.mark_failure now id expected code message retryable at snap t)
perform now (enter_unknown id code message expected) t =
    Writes.enter_unknown now id code message expected t
perform now (relocate_compensate id up target raw snap at note) t =
    Writes.relocate_compensate now id up target raw snap at note t
perform now (lease_dispatch id lease expected) t =
    ok (Writes.lease_dispatch now id lease expected t)
perform now (release_submit_intent id expected at decr code message retryable attrs deadline) t =
    ok
      (Writes.release_submit_intent now id expected at decr code message retryable attrs deadline t)
perform now (note_attribute id attrs) t = ok (Writes.note_attribute now id attrs t)
perform now (schedule_transfer_retry id at attempts) t =
    ok (Writes.schedule_transfer_retry now id at attempts t)
perform now (mark_result_unavailable id detail) t =
    ok (Writes.mark_result_unavailable now id detail t)

-- A history: each call with the clock's reading when it was made. A call that raises leaves the
-- table alone.
unfoldable pub run : List (ℕ × Call) → Table → Table
unfolding perform
run [] t = t
run ((now, c) ∷ rest) t = run rest (table_after (perform now c t) t)

-- A call does not pass `result_ref` among the free keyword arguments of `advance`; no caller in
-- the program does.
abbrev pub is_plain : Call → Bool
is_plain (advance id dst expected vs) = not (any sets_result vs)
is_plain _ = true

abbrev pub IsPlain : ℕ × Call → Type 0
IsPlain c = is_plain c.1 ≡ true
