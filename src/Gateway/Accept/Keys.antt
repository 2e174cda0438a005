-- ===== src/Gateway/Accept/Keys.antt =====
-- Which tasks are accepted under one idempotency key in one window, with the constraints of
-- db/models.py; a task is in the table before its message is on the bus.
use async_task.Prelude.{
  ℕ, true, false, String, eq_iff, Option, none, some, get_or, List, [], ◌∷◌, ◌++◌, any, All, leb,
  ◌≡◌, refl, sym, subst, ◌∙◌, Bool-cases, Option-cases, inl, inr, if◌then◌else◌, arith,
}
use async_task.Db.Task.{Task, Table}
use async_task.Db.Dao.Calls.{Call, run, IsPlain}
use async_task.Db.Dao.Rows.{TableStep}
use async_task.Db.Dao.History.{run-TableStep}
use async_task.Db.Dao.Inserts.{
  is_for, clashes, no_clash, for_step, find_by_idempotency, insert_row, insert_all,
}
use async_task.Gateway.Accept.Once.{
  is_new, hand_over-table, accept-Found, lose-not_new, replay_or_conflict-not_new,
}
use async_task.Gateway.Accept.{
  Front, put_request, hand_over, inserted, persist, create_or_replay, accept_create,
}
use async_task.Gateway.Submission.{Submission, new_row}

-- No row has the key and window.
abbrev Free : String → ℕ → Table → Type 0
Free key bucket t = All (λ s. is_for key bucket s ≡ false) t

-- `uq_task_idem_window`
abbrev pub OneKey : Table → Type 0
OneKey [] = Unit
OneKey (r ∷ t) = Free r.idempotency_key r.idempotency_bucket t × OneKey t

is_for-swap :
    (r s : Task)
    → is_for r.idempotency_key r.idempotency_bucket s ≡ false
    → is_for s.idempotency_key s.idempotency_bucket r ≡ false
is_for-swap r s h =
    ground (
      arith,
      eq_iff r.idempotency_key s.idempotency_key,
      eq_iff s.idempotency_key r.idempotency_key,
    )

Free-append :
    (key : String) (bucket : ℕ) (t : Table) (r : Task)
    → Free key bucket t
    → is_for key bucket r ≡ false
    → Free key bucket (t ++ r ∷ [])
Free-append key bucket [] r f h = (h, tt)
Free-append key bucket (x ∷ t) r f h = (f.0, Free-append key bucket t r f.1 h)

OneKey-append :
    (t : Table) (r : Task)
    → OneKey t
    → Free r.idempotency_key r.idempotency_bucket t
    → OneKey (t ++ r ∷ [])
OneKey-append [] r o f = (tt, tt)
OneKey-append (x ∷ t) r o f = (
  Free-append x.idempotency_key x.idempotency_bucket t r o.0 (is_for-swap r x f.0),
  OneKey-append t r o.1 f.1,
)

no_clash-Free :
    (r : Task) (t : Table)
    → any (clashes r) t ≡ false
    → Free r.idempotency_key r.idempotency_bucket t
no_clash-Free r [] h = tt
no_clash-Free r (x ∷ t) h =
    let (a, b) = no_clash r x (any (clashes r) t) h in (a, no_clash-Free r t b)

insert-OneKey : (r : Task) (t : Table) → OneKey t → OneKey (get_or (insert_row r t) t)
unfolding insert_row
insert-OneKey r t o = elim (Bool-cases (any (clashes r) t)) [
  | inl e ↦ rw e o
  | inr e ↦ rw e (OneKey-append t r o (no_clash-Free r t e))
]

insert_all-OneKey : (rivals : List Task) (t : Table) → OneKey t → OneKey (insert_all rivals t)
unfolding insert_all
insert_all-OneKey [] t o = o
insert_all-OneKey (r ∷ rivals) t o = insert_all-OneKey rivals _ (insert-OneKey r t o)

Free-TableStep :
    (key : String) (bucket : ℕ) (t u : Table)
    → TableStep t u
    → Free key bucket t
    → Free key bucket u
Free-TableStep key bucket [] [] p f = tt
Free-TableStep key bucket [] (y ∷ u) p f = absurd p
Free-TableStep key bucket (x ∷ t) [] p f = absurd p
Free-TableStep key bucket (x ∷ t) (y ∷ u) p f =
    (for_step key bucket p.0 ∙ f.0, Free-TableStep key bucket t u p.1 f.1)

OneKey-TableStep : (t u : Table) → TableStep t u → OneKey t → OneKey u
OneKey-TableStep [] [] p o = tt
OneKey-TableStep [] (y ∷ u) p o = absurd p
OneKey-TableStep (x ∷ t) [] p o = absurd p
OneKey-TableStep (x ∷ t) (y ∷ u) p o = (
  subst (λ q. Free q.0 q.1 u) (sym p.0.same_request)
      (Free-TableStep x.idempotency_key x.idempotency_bucket t u p.1 o.0),
  OneKey-TableStep t u p.1 o.1,
)

inserted-OneKey :
    (s : Submission) (r : Task) (f : Front)
    → OneKey f.table
    → OneKey (inserted s f (insert_row r f.table)).1.table
inserted-OneKey s r f o = elim (Option-cases (insert_row r f.table)) [
  | inl e ↦ rw e o
  | inr (t, e) ↦
      rw (e, hand_over-table s (record f { table = t }))
        (subst (λ x. OneKey (get_or x f.table)) e (insert-OneKey r f.table o))
]

accept-OneKey :
    (rivals : List Task) (s : Submission) (f : Front)
    → OneKey f.table
    → OneKey (accept_create rivals s f).1.table
unfolding accept_create create_or_replay persist put_request
accept-OneKey rivals s f o = elim (Bool-cases s.granted) [
  | inr e ↦ rw e o
  | inl e ↦ elim (Bool-cases (leb s.max_depth s.depth)) [
    | inl full ↦ rw (e, full) o
    | inr room ↦ elim (Option-cases (find_by_idempotency s.key s.bucket f.table)) [
      | inl fresh ↦
          rw (e, room, fresh)
            (inserted-OneKey s (new_row f.clock s)
              (record (put_request s f) { table = insert_all rivals f.table })
              (insert_all-OneKey rivals f.table o))
      | inr (r, found) ↦ rw (e, room, found) o
    ]
  ]
]

-- At most one task is accepted under a key in a window, where the table has the unique constraint on
-- key and window that db/models.py declares: a table whose rows differ in key or window stays so
-- through a request, whatever other requests insert during it and whatever calls of the data access
-- object follow, none of which passes `result_ref` to `advance`. It is not so on the partitioned
-- table of scripts/partition_async_task.sql, whose index has `created_at` too.
pub keys_stay_unique :
    (rivals : List Task) (s : Submission) (f : Front) (calls : List (ℕ × Call))
    → OneKey f.table
    → All IsPlain calls
    → OneKey (run calls (accept_create rivals s f).1.table)
keys_stay_unique rivals s f calls o plain =
    let t = (accept_create rivals s f).1.table in
    OneKey-TableStep t (run calls t) (run-TableStep calls t plain) (accept-OneKey rivals s f o)

hand_over-queued :
    (s : Submission) (f : Front)
    → (hand_over s f).1.queued
      ≡ (if is_new (hand_over s f).0 then s.task_id ∷ f.queued else f.queued)
unfolding hand_over
hand_over-queued s f = elim (Bool-cases s.bus_full) [ inl e ↦ rw e refl | inr e ↦ rw e refl ]

inserted-queued :
    (s : Submission) (f : Front) (o : Option Table)
    → (inserted s f o).1.queued
      ≡ (if is_new (inserted s f o).0 then s.task_id ∷ f.queued else f.queued)
inserted-queued s f none = rw (lose-not_new s f) refl
inserted-queued s f (some t) = hand_over-queued s (record f { table = t })

accept-queued :
    (rivals : List Task) (s : Submission) (f : Front)
    → (accept_create rivals s f).1.queued
      ≡ (if is_new (accept_create rivals s f).0 then s.task_id ∷ f.queued else f.queued)
unfolding accept_create create_or_replay persist put_request
accept-queued rivals s f = elim (Bool-cases s.granted) [
  | inr e ↦ rw e refl
  | inl e ↦ elim (Bool-cases (leb s.max_depth s.depth)) [
    | inl full ↦ rw (e, full) refl
    | inr room ↦ elim (Option-cases (find_by_idempotency s.key s.bucket f.table)) [
      | inl fresh ↦
          rw (e, room, fresh)
            (inserted-queued s (record (put_request s f) { table = insert_all rivals f.table })
              (insert_row (new_row f.clock s) (insert_all rivals f.table)))
      | inr (r, found) ↦ rw (e, room, found, replay_or_conflict-not_new f.responses r s.digest) refl
    ]
  ]
]

-- A message is put on the bus exactly with a new acceptance, and then the new row is already in
-- the table, where its key and window find it.
pub row_before_message :
    (rivals : List Task) (s : Submission) (f : Front)
    → let x = accept_create rivals s f in
      (x.1.queued ≡ (if is_new x.0 then s.task_id ∷ f.queued else f.queued))
      × (is_new x.0 ≡ true
          → find_by_idempotency s.key s.bucket x.1.table ≡ some (new_row f.clock s))
row_before_message rivals s f = (accept-queued rivals s f, accept-Found rivals s f)
