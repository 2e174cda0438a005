-- ===== src/Workers/Inspector/Resends.antt =====
-- Which accepted tasks the inspector sends to be submitted again.
use async_task.Prelude.{
  ℕ, Bool, false, not, ◌&&◌, String, str_eq, none, is_some, List, [], ◌∷◌, any, length, ◌≡◌, refl,
  arith, Bool-cases, inl, inr,
}
use async_task.Outcome.{Result, ok, raised}
use async_task.Db.Task.{Task, Table}
use async_task.Db.Dao.Cas.{Written}
use async_task.Db.Dao.Calls.{Call, perform}
use async_task.Db.Dao.Queries.{stalled_accepted}
use async_task.Tasks.World.{Event, enqueued, Env, World, ◌>>=◌}
use async_task.Tasks.World.Actions.{commit, commit_with, enqueue}
use async_task.Tasks.World.Keeps.{Keeps, Keeps-pure, Keeps-gets, Keeps-if, Keeps-bind}
use async_task.Tasks.Dispatch.Paid.{tally}
use async_task.Workers.Session.{in_session, close_session, for_each}
use async_task.Workers.Inspector.{row_limit, doubt_accepted, requeue_accepted, scan_accepted_stalls}

-- A message that has the task submitted.
abbrev pub is_resend : String → Event → Bool
is_resend id (enqueued queue name sent attempt) = str_eq name "submit_upstream" && str_eq sent id
is_resend id _ = false

-- The row is the task's and has no submit intent.
abbrev pub unintended : String → Task → Bool
unintended id r = str_eq r.task_id id && not (is_some r.submit_started_at)

module _ {P : Type 0} (env : Env P) (id : String) (n : ℕ) where
  record Sent (w : World P) : Type 0 where
    as_many : tally (is_resend id) w.trace ≡ n

  commit-Sent : (c : Call) → Keeps Sent (commit c)
  unfolding commit
  commit-Sent c = record { at = λ w k. written (perform w.clock c w.table) w k }
    where
      written : (r : Written) (w : World P) → Sent w → Sent (commit_with c r w).1
      written (ok (done, t)) w k = record { as_many = k.as_many }
      written (raised e) w k = k

  enqueue-Sent :
      (queue name sent : String)
      → is_resend id (enqueued queue name sent none) ≡ false
      → Keeps Sent (enqueue env queue name sent none)
  unfolding enqueue
  enqueue-Sent queue name sent h = record {
    at = λ w k. elim (Bool-cases (env.bus_full queue (length w.trace))) [
      | inl e ↦ rw e k
      | inr e ↦ rw e (record { as_many = rw h k.as_many })
    ];
  }

  doubt-Sent : (r : Task) → Keeps Sent (doubt_accepted env r)
  unfolding doubt_accepted
  doubt-Sent r = Keeps-bind (Keeps-gets _) (λ at. Keeps-bind (commit-Sent _) (λ moved.
      Keeps-if moved (Keeps-bind (enqueue-Sent _ _ _ refl) (λ u. Keeps-pure 1)) (Keeps-pure 0)))

  requeue-Sent : (r : Task) → unintended id r ≡ false → Keeps Sent (requeue_accepted env r)
  unfolding requeue_accepted
  requeue-Sent r h = elim (Bool-cases (is_some r.submit_started_at)) [
    | inl e ↦ rw e (doubt-Sent r)
    | inr e ↦ rw e (Keeps-bind (enqueue-Sent _ _ _ (ground arith)) (λ u. Keeps-pure 1))
  ]

  each-Sent :
      (rows : List Task)
      → any (unintended id) rows ≡ false
      → Keeps Sent (for_each (requeue_accepted env) rows)
  unfolding for_each
  each-Sent [] h = Keeps-pure 0
  each-Sent (r ∷ rows) h = elim (Bool-cases (unintended id r)) [
    | inl e ↦ absurd (cc (rw e at h))
    | inr e ↦
        Keeps-bind (requeue-Sent r e)
          (λ m. Keeps-bind (each-Sent rows (rw e at h)) (λ k. Keeps-pure _))
  ]

  closed-Sent :
      {A : Type 0} (before : Table) (s : Result A × World P)
      → Sent s.1
      → Sent (close_session before s).1
  closed-Sent before (ok a, w) k = k
  closed-Sent before (raised e, w) k = record { as_many = k.as_many }

-- The scan of the stalled acceptances puts no message on the bus that has a task submitted whose
-- rows, as it lists them, all have a submit intent, also where it raises: such a task may have been
-- created already. No other writer acts between its SELECT and its UPDATEs.
pub stalls_resend_unintended :
    {P : Type 0} (env : Env P) (stall : ℕ) (id : String) (w : World P)
    → any (unintended id) (stalled_accepted stall row_limit w.clock w.table) ≡ false
    → tally (is_resend id) (scan_accepted_stalls env stall w).1.trace ≡ tally (is_resend id) w.trace
unfolding scan_accepted_stalls in_session ◌>>=◌
stalls_resend_unintended env stall id w h =
    let n = tally (is_resend id) w.trace in
    let rows = stalled_accepted stall row_limit w.clock w.table in
    (closed-Sent env id n w.table (for_each (requeue_accepted env) rows w)
      ((each-Sent env id n rows h).at w (record { as_many = refl }))).as_many
