-- ===== src/Gateway/Accept/Once.antt =====
-- A request that is sent again under its idempotency key is not accepted again.
use async_task.Prelude.{
  ℕ, Bool, true, false, not, String, Option, none, some, List, All, leb, ◌≡◌, refl, sym, subst, ap,
  ◌∙◌, Bool-cases, Option-cases, inl, inr,
}
use async_task.Db.Task.{Task, Table}
use async_task.Db.Dao.Calls.{Call, run, IsPlain}
use async_task.Db.Dao.History.{run-TableStep}
use async_task.Db.Dao.Inserts.{
  find_by_idempotency, insert_row, insert_all, find-TableStep, find-insert_all, find-inserted,
}
use async_task.Gateway.Accept.{
  Stored, AcceptResult, Reply, done, refused, Front, stored_at, ref_of, differs, replay,
  replay_or_conflict, put_request, hand_over, lose, inserted, create_or_replay, persist,
  accept_create,
}
use async_task.Gateway.Submission.{Submission, new_row}

-- The reply to a request that was replayed from a row.
abbrev ReplaysOf : Task → Reply → Type 0
ReplaysOf r reply =
    (a : AcceptResult) × (reply ≡ done a) × (a.task_id ≡ r.task_id) × (a.replayed ≡ true)

replay-ReplaysOf : (r : Task) (o : Option Stored) → ReplaysOf r (replay r o)
unfolding replay
replay-ReplaysOf r none = (_, refl, refl, refl)
replay-ReplaysOf r (some s) = elim (Bool-cases s.pending) [
  | inl e ↦ rw e (_, refl, refl, refl)
  | inr e ↦ rw e (_, refl, refl, refl)
]

-- A reply is a new acceptance.
abbrev pub is_new : Reply → Bool
is_new (done a) = not a.replayed
is_new _ = false

pub replay_or_conflict-not_new :
    (responses : List (String × Stored)) (r : Task) (digest : String)
    → is_new (replay_or_conflict responses r digest) ≡ false
unfolding replay_or_conflict
replay_or_conflict-not_new responses r digest =
    elim (Bool-cases (differs r.create_req_digest digest)) [
      | inl e ↦ rw e refl
      | inr e ↦
          let (a, same, id, replayed) = replay-ReplaysOf r (stored_at (ref_of r) responses) in
          rw (e, same, replayed) refl
    ]

pub lose-not_new : (s : Submission) (f : Front) → is_new (lose s f) ≡ false
unfolding lose
lose-not_new s f = elim (Option-cases (find_by_idempotency s.key s.bucket f.table)) [
  | inl e ↦ rw (e, lose) refl
  | inr (r, e) ↦ rw (e, lose) (replay_or_conflict-not_new f.responses r s.digest)
]

pub hand_over-table : (s : Submission) (f : Front) → (hand_over s f).1.table ≡ f.table
unfolding hand_over
hand_over-table s f = elim (Bool-cases s.bus_full) [ inl e ↦ rw e refl | inr e ↦ rw e refl ]

-- The row that a key and window find after an acceptance is the new one.
abbrev pub Found : Submission → ℕ → Reply × Front → Type 0
Found s at x = find_by_idempotency s.key s.bucket x.1.table ≡ some (new_row at s)

row-key :
    (s : Submission) (at : ℕ) (t : Table)
    → find_by_idempotency (new_row at s).idempotency_key (new_row at s).idempotency_bucket t
      ≡ find_by_idempotency s.key s.bucket t
unfolding new_row
row-key s at t = refl

inserted-Found :
    (s : Submission) (at : ℕ) (f : Front) (o : Option Table)
    → insert_row (new_row at s) f.table ≡ o
    → is_new (inserted s f o).0 ≡ true
    → Found s at (inserted s f o)
inserted-Found s at f none e n = cc (n, lose-not_new s f)
inserted-Found s at f (some t) e n =
    ap (find_by_idempotency s.key s.bucket) (hand_over-table s (record f { table = t }))
    ∙ sym (row-key s at t)
    ∙ find-inserted (new_row at s) f.table t e

create_or_replay-Found :
    (rivals : List Task) (s : Submission) (f : Front) (o : Option Task)
    → is_new (create_or_replay rivals s f o).0 ≡ true
    → Found s f.clock (create_or_replay rivals s f o)
unfolding create_or_replay persist
create_or_replay-Found rivals s f (some r) n =
    cc (n, replay_or_conflict-not_new f.responses r s.digest)
create_or_replay-Found rivals s f none n =
    inserted-Found s f.clock (record (put_request s f) { table = insert_all rivals f.table }) _ refl
      n

pub accept-Found :
    (rivals : List Task) (s : Submission) (f : Front)
    → is_new (accept_create rivals s f).0 ≡ true
    → Found s f.clock (accept_create rivals s f)
unfolding accept_create
accept-Found rivals s f n = elim (Bool-cases s.granted) [
  | inr e ↦ cc (rw (e, accept_create) at n)
  | inl e ↦ elim (Bool-cases (leb s.max_depth s.depth)) [
    | inl full ↦ cc (rw (e, full, accept_create) at n)
    | inr room ↦
        let found = find_by_idempotency s.key s.bucket f.table in
        rw (e, room, accept_create)
          (create_or_replay-Found rivals s f found (rw (e, room, accept_create) at n))
  ]
]

accept-existing :
    (rivals : List Task) (s : Submission) (f : Front) {r : Task}
    → s.granted ≡ true
    → leb s.max_depth s.depth ≡ false
    → find_by_idempotency s.key s.bucket f.table ≡ some r
    → accept_create rivals s f ≡ (replay_or_conflict f.responses r s.digest, f)
unfolding accept_create create_or_replay
accept-existing rivals s f g d e = rw (g, d, e, accept_create) refl

-- The row of the first acceptance, as the same key and window find it later.
later-found :
    (rivals more : List Task) (calls : List (ℕ × Call)) (s : Submission) (f : Front)
    → is_new (accept_create rivals s f).0 ≡ true
    → All IsPlain calls
    → (r : Task) × (find_by_idempotency s.key s.bucket
          (run calls (insert_all more (accept_create rivals s f).1.table))
        ≡ some r)
      × (r.task_id ≡ s.task_id)
      × (r.create_req_digest ≡ some s.digest)
unfolding new_row
later-found rivals more calls s f n plain =
    let t = (accept_create rivals s f).1.table in
    let first = find-insert_all s.key s.bucket more t (accept-Found rivals s f n) in
    let (r, e, st) =
      find-TableStep s.key s.bucket (insert_all more t) (run calls (insert_all more t))
        (run-TableStep calls (insert_all more t) plain) first in
    (r, e, st.same_id, ap (λ q. q.2) st.same_request)

same_body :
    (responses : List (String × Stored)) (r : Task) (digest : String)
    → differs r.create_req_digest digest ≡ false
    → ReplaysOf r (replay_or_conflict responses r digest)
unfolding replay_or_conflict
same_body responses r digest h = rw h (replay-ReplaysOf r (stored_at (ref_of r) responses))

other_body :
    (responses : List (String × Stored)) (r : Task) (digest : String)
    → differs r.create_req_digest digest ≡ true
    → replay_or_conflict responses r digest
      ≡ refused 409 "idempotency key reused with a different request body within the dedup window"
          none
unfolding replay_or_conflict
other_body responses r digest h = rw h refl

-- Once a request is accepted, a second one under its key and in its window, that gets past the
-- accept limiter and the queue's depth, is never accepted again: with the same body's digest, or
-- where either digest is empty, it is answered from the first task; with another digest it is
-- refused with 409; and it changes nothing. That holds whatever calls of the data access object,
-- inserts of other requests and changes of the archived responses come in between; no call passes
-- `result_ref` to `advance`.
pub accept_once :
    (rivals more rivals' : List Task) (s s' : Submission) (f : Front) (calls : List (ℕ × Call))
    (responses : List (String × Stored)) (now : ℕ)
    → is_new (accept_create rivals s f).0 ≡ true
    → All IsPlain calls
    → s'.key ≡ s.key
    → s'.bucket ≡ s.bucket
    → s'.granted ≡ true
    → leb s'.max_depth s'.depth ≡ false
    → let first = (accept_create rivals s f).1 in
      let later : Front = record first {
        table = run calls (insert_all more first.table);
        responses = responses;
        clock = now;
      } in
      let again = accept_create rivals' s' later in
      (again.1 ≡ later)
      × (differs (some s.digest) s'.digest ≡ false
          → (a : AcceptResult) × (again.0 ≡ done a) × (a.task_id ≡ s.task_id) × (a.replayed ≡ true))
      × (differs (some s.digest) s'.digest ≡ true
          → again.0
            ≡ refused 409
                "idempotency key reused with a different request body within the dedup window" none)
accept_once rivals more rivals' s s' f calls responses now n plain key bucket granted room =
    let first = (accept_create rivals s f).1 in
    let later : Front = record first {
      table = run calls (insert_all more first.table);
      responses = responses;
      clock = now;
    } in
    let (r, e, id, digest) = later-found rivals more calls s f n plain in
    let same = accept-existing rivals' s' later {r = r} granted room (rw (key, bucket) e) in
    (
      ap (λ x. x.1) same,
      (λ d.
          let (a, x, i, p) =
            same_body responses r s'.digest
              (subst (λ o. differs o s'.digest ≡ false) (sym digest) d) in
          (a, ap (λ y. y.0) same ∙ x, i ∙ id, p)),
      (λ d.
          ap (λ y. y.0) same
          ∙ other_body responses r s'.digest
              (subst (λ o. differs o s'.digest ≡ true) (sym digest) d)),
    )
