-- ===== src/Db/Dao/Writes.antt =====
-- src/async_gateway/db/dao.py: the named write paths, in the source's order. Each keyword
-- argument of a method is an argument here; one with a default is an `Option`.
use async_task.Prelude.{
  ℕ, ◌+◌, Bool, false, not, String, Option, none, some, is_some, str_eq, List, [], ◌∷◌, ◌++◌, leb,
  max, if◌then◌else◌,
}
use async_task.Prelude.Text.{truncate}
use async_task.Domain.Status.{
  TaskStatus, accepted, upstream_submitted, in_progress, submit_unknown, succeeded, cancelled,
  ErrorCode, transfer_failed, status_eq,
}
use async_task.Db.Json.{Json, str, Fields, end, field, insert, or_empty}
use async_task.Db.Task.{Table}
use async_task.Db.Assign.{
  Assign, set_status, set_upstream_task_id, set_raw_status, set_status_snapshot,
  set_status_snapshot_at, set_started_at, set_finished_at, set_next_poll_at, set_last_polled_at,
  incr_poll_count, set_error_code, set_error_message, set_retryable, set_unknown_since,
  set_submit_started_at, set_deadline_at, raise_cancel_requested, set_cancel_requested_at,
  put_result_ref, set_result_summary, set_result_degraded, set_last_confirmed_at,
  incr_confirm_attempts, incr_attempts, decr_attempts, set_attributes,
}
use async_task.Db.Dao.Cas.{
  cas, get, no_extra, advance, Written, active_statuses, cancel_preconditions,
}

abbrev pub unset : {A : Type 0} → Option A → Bool
unset o = not (is_some o)

-- `started_at or now_utc()`: no caller passes `started_at`.
unfoldable pub mark_submit_intent : ℕ → String → Table → Bool × Table
mark_submit_intent now id =
    cas now id (accepted ∷ []) (set_submit_started_at (some now) ∷ incr_attempts ∷ [])
      (λ r. unset r.submit_started_at)

unfoldable pub mark_submitted :
    ℕ → String → String → Option String → Option Json → ℕ → Table → Bool × Table
mark_submitted now id upstream_task_id raw_status snapshot next_poll_at =
    cas now id (accepted ∷ [])
      (set_status upstream_submitted
        ∷ set_upstream_task_id (some upstream_task_id)
        ∷ set_raw_status raw_status
        ∷ set_status_snapshot snapshot
        ∷ set_status_snapshot_at (some now)
        ∷ set_started_at (some now)
        ∷ set_next_poll_at (some next_poll_at)
        ∷ set_error_code none
        ∷ set_error_message none
        ∷ [])
      (λ r. is_some r.submit_started_at)

unfoldable pub set_cancel_requested : ℕ → String → Table → Bool × Table
set_cancel_requested now id =
    cas now id cancel_preconditions
      (raise_cancel_requested ∷ set_cancel_requested_at (some now) ∷ []) no_extra

unfoldable pub cancel_immediately_after_submit : ℕ → String → Table → Bool × Table
cancel_immediately_after_submit now id =
    cas now id (upstream_submitted ∷ in_progress ∷ [])
      (set_status cancelled ∷ set_finished_at (some now) ∷ set_next_poll_at none ∷ [])
      (λ r. r.cancel_requested)

unfoldable pub set_result_ref :
    ℕ → String → String → Option Json → Option (List String) → Table → Bool × Table
set_result_ref now id result_ref summary degraded =
    cas now id (succeeded ∷ [])
      (put_result_ref (some result_ref)
        ∷ set_result_summary summary
        ∷ set_result_degraded degraded
        ∷ [])
      (λ r. unset r.result_ref)

unfoldable pub schedule_next_poll : ℕ → String → ℕ → Table → Bool × Table
schedule_next_poll now id next_poll_at =
    cas now id active_statuses (set_next_poll_at (some next_poll_at) ∷ []) no_extra

-- One entry of `values` that is written only where the argument is given.
abbrev pub given {ℓ} : {A : Type ℓ} → Option A → (A → List Assign) → List Assign
given none f = []
given (some a) f = f a

unfoldable pub record_poll_result :
    ℕ → String → Option Json → Option String → Option ℕ → List TaskStatus → Table → Bool × Table
record_poll_result now id snapshot raw_status next_poll_at expected =
    cas now id expected
      (set_status_snapshot snapshot
        ∷ set_status_snapshot_at (some now)
        ∷ set_raw_status raw_status
        ∷ incr_poll_count
        ∷ set_last_polled_at (some now)
        ∷ given next_poll_at (λ at. set_next_poll_at (some at) ∷ []))
      no_extra

unfoldable pub mark_failure :
    ℕ
    → String
    → List TaskStatus
    → ErrorCode
    → Option String
    → Bool
    → Option ℕ
    → Option Json
    → Table
    → Bool × Table
mark_failure now id expected error_code error_message retryable next_poll_at snapshot =
    cas now id expected
      (set_error_code (some error_code)
        ∷ set_error_message error_message
        ∷ set_retryable (some retryable)
        ∷ set_next_poll_at next_poll_at
        ∷ given snapshot
            (λ s. set_status_snapshot (some s) ∷ set_status_snapshot_at (some now) ∷ []))
      no_extra

-- `expected or [ACCEPTED]`
abbrev pub or_accepted : Option (List TaskStatus) → List TaskStatus
or_accepted none = accepted ∷ []
or_accepted (some []) = accepted ∷ []
or_accepted (some (s ∷ rest)) = s ∷ rest

unfoldable pub enter_unknown :
    ℕ → String → ErrorCode → Option String → Option (List TaskStatus) → Table → Written
enter_unknown now id error_code error_message expected =
    advance now id submit_unknown (some (or_accepted expected)) (
      set_error_code (some error_code)
      ∷ set_error_message error_message
      ∷ set_unknown_since (some now)
      ∷ set_next_poll_at (some now)
      ∷ [])

-- `if upstream_task_id` and `if note`: an empty text counts as not given.
abbrev pub given_text : Option String → (String → List Assign) → List Assign
given_text none f = []
given_text (some s) f = if str_eq s "" then [] else f s

unfoldable pub relocate_values :
    ℕ
    → Option String
    → TaskStatus
    → Option String
    → Option Json
    → Option ℕ
    → Option String
    → List Assign
relocate_values now upstream_task_id target raw_status snapshot next_poll_at note =
    set_last_confirmed_at (some now)
    ∷ incr_confirm_attempts
    ∷ (given_text upstream_task_id (λ u. set_upstream_task_id (some u) ∷ [])
        ++ (given raw_status (λ s. set_raw_status (some s) ∷ [])
            ++ (given snapshot
                  (λ s. set_status_snapshot (some s) ∷ set_status_snapshot_at (some now) ∷ [])
                ++ (given next_poll_at (λ at. set_next_poll_at (some at) ∷ [])
                    ++ (given_text note
                          (λ n. set_attributes (some (field "compensate_note" (str n) end)) ∷ [])
                        ++ (if status_eq target upstream_submitted
                            then set_unknown_since none ∷ []
                            else []))))))

unfoldable pub relocate_compensate :
    ℕ
    → String
    → Option String
    → TaskStatus
    → Option String
    → Option Json
    → Option ℕ
    → Option String
    → Table
    → Written
unfolding relocate_values
relocate_compensate now id upstream_task_id target raw_status snapshot next_poll_at note =
    advance now id target (some (submit_unknown ∷ []))
      (relocate_values now upstream_task_id target raw_status snapshot next_poll_at note)

-- `next_poll_at is not None and next_poll_at <= now`
abbrev pub is_due : ℕ → Option ℕ → Bool
is_due now none = false
is_due now (some at) = leb at now

-- `timedelta(seconds=max(1.0, lease_seconds))`
unfoldable pub lease_dispatch : ℕ → String → ℕ → List TaskStatus → Table → Bool × Table
lease_dispatch now id lease expected =
    cas now id expected (set_next_poll_at (some (now + max 1_000_000 lease)) ∷ [])
      (λ r. is_due now r.next_poll_at)

-- `if attributes`: an empty dict counts as not given.
abbrev pub given_dict : Option Fields → (Fields → List Assign) → List Assign
given_dict none f = []
given_dict (some end) f = []
given_dict (some (field k v rest)) f = f (field k v rest)

unfoldable pub release_submit_intent :
    ℕ
    → String
    → List TaskStatus
    → ℕ
    → Bool
    → Option ErrorCode
    → Option String
    → Option Bool
    → Option Fields
    → Option ℕ
    → Table
    → Bool × Table
release_submit_intent now id expected next_poll_at decrement error_code error_message retryable
      attributes deadline =
    cas now id expected
      (set_submit_started_at none
        ∷ set_next_poll_at (some next_poll_at)
        ∷ set_error_code error_code
        ∷ set_error_message error_message
        ∷ set_retryable retryable
        ∷ (given deadline (λ at. set_deadline_at (some at) ∷ [])
            ++ ((if decrement then decr_attempts ∷ [] else [])
                ++ given_dict attributes (λ a. set_attributes (some a) ∷ []))))
      no_extra

-- `merged.update(attributes)`, an entry at a time.
unfoldable pub merge : List (String × Json) → Fields → Fields
unfolding insert
merge [] d = d
merge ((k, v) ∷ rest) d = merge rest (insert k v d)

unfoldable pub note_attribute : ℕ → String → List (String × Json) → Table → Bool × Table
note_attribute now id attributes t = elim (get id t) [
  | none ↦ (false, t)
  | some task ↦
      cas now id active_statuses
        (set_attributes (some (merge attributes (or_empty task.attributes))) ∷ []) no_extra t
]

unfoldable pub schedule_transfer_retry : ℕ → String → ℕ → ℕ → Table → Bool × Table
schedule_transfer_retry now id next_poll_at attempts =
    cas now id (succeeded ∷ [])
      (set_next_poll_at (some next_poll_at)
        ∷ set_attributes (some (field "transfer_attempts" (Json.num attempts) end))
        ∷ [])
      (λ r. unset r.result_ref)

unfoldable pub mark_result_unavailable : ℕ → String → String → Table → Bool × Table
mark_result_unavailable now id detail =
    cas now id (succeeded ∷ [])
      (set_result_degraded (some ("transfer_failed" ∷ []))
        ∷ set_error_code (some transfer_failed)
        ∷ set_error_message (some (truncate 500 detail))
        ∷ set_next_poll_at none
        ∷ [])
      (λ r. unset r.result_ref)
