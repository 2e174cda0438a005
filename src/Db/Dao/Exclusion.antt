-- ===== src/Db/Dao/Exclusion.antt =====
-- Mutual exclusion by the submit intent, over every interleaving of calls.
use async_task.Prelude.{
  ◌⊎◌, ℕ, Bool, true, false, String, str_eq, none, some, List, [], ◌∷◌, All, ◌≡◌, refl, arith,
  Bool-cases, inl, inr, Option-cases,
}
use async_task.Domain.Status.{submit_unknown, accepted}
use async_task.Db.Json.{Json}
use async_task.Db.Task.{Task, Table}
use async_task.Db.Assign.{Assign, set_submit_started_at, incr_attempts}
use async_task.Db.Dao.Cas.{cas, get, write, update, hit, matches}
use async_task.Db.Dao.Writes.{
  mark_submit_intent, mark_submitted, set_cancel_requested, cancel_immediately_after_submit,
  set_result_ref, schedule_next_poll, record_poll_result, mark_failure, enter_unknown,
  relocate_compensate, lease_dispatch, note_attribute, schedule_transfer_retry,
  mark_result_unavailable, or_accepted, unset,
}
use async_task.Db.Dao.Rows.{assign_all-id}
use async_task.Db.Dao.Calls.{Call, perform, run}
use async_task.Db.Dao.Intents.{
  Held, Safe, KeepsIntent, keeps_intent, cas-Held, cas_free, advance-Held, relocate_values-free,
}
use async_task.Db.Dao.Advance.{table_after}

note_attribute-Held :
    (id : String) (now : ℕ) (key : String) (attrs : List (String × Json)) (t : Table)
    → Held id t
    → Held id (note_attribute now key attrs t).1
unfolding note_attribute
note_attribute-Held id now key attrs t h = elim (Option-cases (get key t)) [
  | inl e ↦ rw (e, note_attribute) h
  | inr (r, e) ↦ rw (e, note_attribute) (cas_free id now key _ _ _ t refl h)
]

mark-Safe : (id : String) (at : ℕ) → Safe id (set_submit_started_at (some at) ∷ incr_attempts ∷ [])
unfolding write
mark-Safe id at now r held same = refl

perform-Held :
    (id : String) (now : ℕ) (c : Call) (t : Table)
    → keeps_intent c ≡ true
    → Held id t
    → Held id (table_after (perform now c t) t)
unfolding perform mark_submit_intent mark_submitted set_cancel_requested
    cancel_immediately_after_submit set_result_ref schedule_next_poll record_poll_result
    mark_failure enter_unknown relocate_compensate lease_dispatch schedule_transfer_retry
    mark_result_unavailable
perform-Held id now (Call.mark_submit_intent key) t k h =
    cas-Held id now key _ _ _ t (mark-Safe id now) h
perform-Held id now (Call.mark_submitted key up raw snap at) t k h =
    cas_free id now key _ _ _ t refl h
perform-Held id now (Call.advance key dst expected vs) t k h =
    advance-Held id now key dst expected vs t (ground arith) h
perform-Held id now (Call.set_cancel_requested key) t k h = cas_free id now key _ _ _ t refl h
perform-Held id now (Call.cancel_immediately_after_submit key) t k h =
    cas_free id now key _ _ _ t refl h
perform-Held id now (Call.set_result_ref key ref summary degraded) t k h =
    cas_free id now key _ _ _ t refl h
perform-Held id now (Call.schedule_next_poll key at) t k h = cas_free id now key _ _ _ t refl h
perform-Held id now (Call.record_poll_result key snap raw none expected) t k h =
    cas_free id now key expected _ _ t refl h
perform-Held id now (Call.record_poll_result key snap raw (some at) expected) t k h =
    cas_free id now key expected _ _ t refl h
perform-Held id now (Call.mark_failure key expected code message retryable at none) t k h =
    cas_free id now key expected _ _ t refl h
perform-Held id now (Call.mark_failure key expected code message retryable at (some s)) t k h =
    cas_free id now key expected _ _ t refl h
perform-Held id now (Call.enter_unknown key code message expected) t k h =
    advance-Held id now key submit_unknown (some (or_accepted expected)) _ t refl h
perform-Held id now (Call.relocate_compensate key up target raw snap at why) t k h =
    advance-Held id now key target (some (submit_unknown ∷ [])) _ t
      (relocate_values-free now up target raw snap at why) h
perform-Held id now (Call.lease_dispatch key lease expected) t k h =
    cas_free id now key expected _ _ t refl h
perform-Held id now
      (Call.release_submit_intent key expected at decr code message retryable attrs deadline) t k
      h =
    cc
perform-Held id now (Call.note_attribute key attrs) t k h = note_attribute-Held id now key attrs t h
perform-Held id now (Call.schedule_transfer_retry key at attempts) t k h =
    cas_free id now key _ _ _ t refl h
perform-Held id now (Call.mark_result_unavailable key detail) t k h =
    cas_free id now key _ _ _ t refl h

run-Held :
    (id : String) (calls : List (ℕ × Call)) (t : Table)
    → All KeepsIntent calls
    → Held id t
    → Held id (run calls t)
unfolding run
run-Held id [] t k h = h
run-Held id ((now, c) ∷ rest) t k h =
    run-Held id rest (table_after (perform now c t) t) k.1 (perform-Held id now c t k.0 h)

-- The primary key: no two rows with the id.
abbrev pub Absent : String → Table → Type 0
Absent id t = All (λ r. str_eq r.task_id id ≡ false) t

abbrev pub AtMostOne : String → Table → Type 0
AtMostOne id [] = Unit
AtMostOne id (r ∷ t) = ((str_eq r.task_id id ≡ false) × AtMostOne id t) ⊎ Absent id t

Absent-Held :
    (id : String) (p : Task → Bool) (f : Task → Task) (t : Table)
    → ((r : Task) → (f r).task_id ≡ r.task_id)
    → Absent id t
    → Held id (update p f t)
unfolding update
Absent-Held id p f [] same a = tt
Absent-Held id p f (r ∷ t) same a = elim (Bool-cases (p r)) [
  | inl yes_ ↦ rw yes_ ((λ e. ground (arith, same r, a.0)), Absent-Held id p f t same a.1)
  | inr no_ ↦ rw no_ ((λ e. ground (arith, a.0)), Absent-Held id p f t same a.1)
]

-- The WHERE clause of `mark_submit_intent`.
abbrev pub intent_test : String → Task → Bool
intent_test id = matches id (accepted ∷ []) (λ r. unset r.submit_started_at)

pub Absent-no_hit : (id : String) (t : Table) → Absent id t → hit (intent_test id) t ≡ false
unfolding hit matches
Absent-no_hit id [] a = refl
Absent-no_hit id (r ∷ t) a = rw a.0 (Absent-no_hit id t a.1)

Held-no_hit : (id : String) (t : Table) → Held id t → hit (intent_test id) t ≡ false
unfolding hit matches
Held-no_hit id [] a = refl
Held-no_hit id (r ∷ t) a = elim (Bool-cases (str_eq r.task_id id)) [
  | inl same ↦ ground (arith, a.0 same, Held-no_hit id t a.1)
  | inr other ↦ rw other (Held-no_hit id t a.1)
]

intent_test-key : (id : String) (r : Task) → intent_test id r ≡ true → str_eq r.task_id id ≡ true
unfolding matches
intent_test-key id r h = ground arith

mark_row :
    (id : String) (now : ℕ) (r : Task)
    → (write now (set_submit_started_at (some now) ∷ incr_attempts ∷ []) r).submit_started_at
      ≡ some now
unfolding write
mark_row id now r = refl

write-id : (now : ℕ) (vs : List Assign) (r : Task) → (write now vs r).task_id ≡ r.task_id
unfolding write
write-id now vs r = assign_all-id vs r

false_of : {A : Type 0} (b : Bool) → b ≡ true → b ≡ false → A
false_of b h k = cc

-- The worker whose UPDATE hits holds the intent.
win-Held :
    (id : String) (now : ℕ) (t : Table)
    → AtMostOne id t
    → hit (intent_test id) t ≡ true
    → Held id (
        update
          (intent_test id)
          (write now (set_submit_started_at (some now) ∷ incr_attempts ∷ []))
          t)
unfolding hit update
win-Held id now [] one won = tt
win-Held id now (r ∷ t) (inr absent) won = elim (Bool-cases (intent_test id r)) [
  | inl mine ↦ rw mine (
    (λ same. rw (mark_row id now r) refl),
    Absent-Held id (intent_test id) _ t (write-id now _) absent,
  )
  | inr missed ↦ false_of _ (rw missed at won) (Absent-no_hit id t absent)
]
win-Held id now (r ∷ t) (inl (other, one)) won = elim (Bool-cases (intent_test id r)) [
  | inl mine ↦ false_of _ (intent_test-key id r mine) other
  | inr missed ↦
      rw missed ((λ same. false_of _ same other), win-Held id now t one (rw missed at won))
]

-- Of two workers that mark the submit intent of one task, the second fails, whatever calls of
-- others come in between, unless one of these gives the intent back: a release, or an `advance`
-- that writes `submit_started_at`. The key is unique in the table.
pub intent_exclusive :
    (id : String) (now later : ℕ) (calls : List (ℕ × Call)) (t : Table)
    → AtMostOne id t
    → (mark_submit_intent now id t).0 ≡ true
    → All KeepsIntent calls
    → (mark_submit_intent later id (run calls (mark_submit_intent now id t).1)).0 ≡ false
unfolding mark_submit_intent cas
intent_exclusive id now later calls t one won k =
    Held-no_hit id (run calls _) (run-Held id calls _ k (win-Held id now t one won))
