-- ===== src/Workers/Keeps.antt =====
-- What the scheduler and the inspector do to the table: each of them keeps what every plain call
-- of the data access object keeps, since a session that fails leaves the table as it was.
use async_task.Prelude.{
  ℕ, Bool, true, String, Option, none, some, List, [], ◌∷◌, ◌≡◌, refl, Bool-cases, inl, inr, length,
  if◌then◌else◌,
}
use async_task.Outcome.{Result, ok, raised}
use async_task.Db.Task.{Task, Table}
use async_task.Db.Dao.Cas.{get, Written}
use async_task.Db.Dao.Calls.{Call, perform, is_plain}
use async_task.Db.Dao.Rows.{RowStep, TableStep, TableStep-refl, TableStep-trans, get-TableStep}
use async_task.Db.Dao.Advance.{table_after}
use async_task.Db.Dao.History.{perform-TableStep}
use async_task.Infra.Limiter.Counters.{Counts}
use async_task.Tasks.World.{Env, World, M, pure, ◌>>=◌}
use async_task.Tasks.World.Actions.{commit, commit_with, enqueue}
use async_task.Tasks.World.Keeps.{Keeps, Keeps-pure, Keeps-gets, Keeps-if, Keeps-elim, Keeps-bind}
use async_task.Workers.Session.{close_session, in_session}
use async_task.Workers.Session.Keeps.{for_each-Keeps}
use async_task.Workers.Scheduler.{target_queue_and_name, dispatch_to, dispatch_task, dispatch_due}
use async_task.Workers.Inspector.{
  doubt_accepted, requeue_accepted, scan_accepted_stalls, close_overdue, scan_deadlines,
  doubt_active, reconcile_orphans, redispatch_transfer, dispatch_pending_transfers, calibrate_slot,
  calibrate_all, calibrate_concurrency,
}
use async_task.Workers.Unknowns.{give_up, give_up_id, give_up_all, bound_unknowns}
use async_task.Workers.Tick.{TickSettings, run_tick}

module _ {P : Type 0} (start : Table) where
  abbrev Follows : World P → Type 0
  Follows w = TableStep start w.table

  with-Follows :
      (c : Call) (r : Written) (w : World P)
      → TableStep w.table (table_after r w.table)
      → Follows w
      → Follows (commit_with c r w).1
  with-Follows c (ok (done, t)) w s k = TableStep-trans start w.table t k s
  with-Follows c (raised e) w s k = k

  commit-Keeps : (c : Call) → is_plain c ≡ true → Keeps Follows (commit {P = P} c)
  unfolding commit
  commit-Keeps c h = record {
    at = λ w k.
        with-Follows c (perform w.clock c w.table) w (perform-TableStep w.clock c w.table h) k;
  }

  closed-Follows :
      {A : Type 0} (before : Table) (s : Result A × World P)
      → TableStep start before
      → Follows s.1
      → Follows (close_session before s).1
  closed-Follows before (ok a, w) b k = k
  closed-Follows before (raised e, w) b k = b

  session-Keeps : {A : Type 0} {m : M P A} → Keeps Follows m → Keeps Follows (in_session m)
  unfolding in_session
  session-Keeps {m = m} h = record { at = λ w k. closed-Follows w.table (m w) k (h.at w k) }

  -- `if moved: ...` after a call, as the inspector counts it.
  count-Keeps :
      (c : Call) (f : Bool → ℕ)
      → is_plain c ≡ true
      → Keeps Follows (commit {P = P} c >>= λ moved. pure (f moved))
  count-Keeps c f h = Keeps-bind (commit-Keeps c h) (λ moved. Keeps-pure (f moved))

  module _ (env : Env P) where
    enqueue-Keeps :
        (queue name id : String) (attempt : Option ℕ)
        → Keeps Follows (enqueue env queue name id attempt)
    unfolding enqueue
    enqueue-Keeps queue name id attempt = record {
      at = λ w k. elim (Bool-cases (env.bus_full queue (length w.trace))) [
        | inl e ↦ rw e k
        | inr e ↦ rw e k
      ];
    }

    -- A message after a call that moved the task.
    send-Keeps :
        (moved : Bool) (queue name id : String)
        → Keeps {A = ℕ} Follows
            (if moved then enqueue env queue name id none >>= (λ u. pure 1) else pure 0)
    send-Keeps moved queue name id =
        Keeps-if moved (Keeps-bind (enqueue-Keeps queue name id none) (λ u. Keeps-pure 1))
          (Keeps-pure 0)

    requeue-Keeps : (task : Task) → Keeps Follows (requeue_accepted env task)
    unfolding requeue_accepted doubt_accepted
    requeue-Keeps task =
        Keeps-if _
          (Keeps-bind (Keeps-gets _)
            (λ at. Keeps-bind (commit-Keeps _ refl) (λ moved. send-Keeps moved _ _ _)))
          (Keeps-bind (enqueue-Keeps _ _ _ _) (λ u. Keeps-pure 1))

    doubt-Keeps : (task : Task) → Keeps Follows (doubt_active env task)
    unfolding doubt_active
    doubt-Keeps task =
        Keeps-bind (Keeps-gets _)
          (λ at. Keeps-bind (commit-Keeps _ refl) (λ moved. send-Keeps moved _ _ _))

    redispatch-Keeps : (task : Task) → Keeps Follows (redispatch_transfer env task)
    unfolding redispatch_transfer
    redispatch-Keeps task = Keeps-bind (enqueue-Keeps _ _ _ _) (λ u. Keeps-pure 1)

    dispatch_to-Keeps :
        (task : Task) (lease : ℕ) (target : String × String)
        → Keeps Follows (dispatch_to env task lease target)
    unfolding dispatch_to
    dispatch_to-Keeps task lease target = Keeps-bind (commit-Keeps _ refl) (λ leased.
        Keeps-if _ (Keeps-pure 0) (Keeps-bind (enqueue-Keeps _ _ _ _) (λ u. Keeps-pure 1)))

    dispatch_task-Keeps : (lease : ℕ) (task : Task) → Keeps Follows (dispatch_task env lease task)
    unfolding dispatch_task
    dispatch_task-Keeps lease task =
        Keeps-elim (target_queue_and_name env task) (Keeps-pure 0) (dispatch_to-Keeps task lease)

    dispatch_due-Keeps : (batch lease : ℕ) → Keeps Follows (dispatch_due env batch lease)
    unfolding dispatch_due
    dispatch_due-Keeps batch lease =
        session-Keeps
          (Keeps-bind (Keeps-gets _) (λ due. for_each-Keeps due (dispatch_task-Keeps lease)))

    stalls-Keeps : (stall : ℕ) → Keeps Follows (scan_accepted_stalls env stall)
    unfolding scan_accepted_stalls
    stalls-Keeps stall =
        session-Keeps (Keeps-bind (Keeps-gets _) (λ rows. for_each-Keeps rows requeue-Keeps))

    orphans-Keeps : (stall : ℕ) → Keeps Follows (reconcile_orphans env stall)
    unfolding reconcile_orphans
    orphans-Keeps stall =
        session-Keeps (Keeps-bind (Keeps-gets _) (λ rows. for_each-Keeps rows doubt-Keeps))

    transfers-Keeps : Keeps Follows (dispatch_pending_transfers env)
    unfolding dispatch_pending_transfers
    transfers-Keeps =
        session-Keeps (Keeps-bind (Keeps-gets _) (λ rows. for_each-Keeps rows redispatch-Keeps))

  overdue-Keeps :
      (deadline : Option ℕ → String) (task : Task)
      → Keeps Follows (close_overdue {P = P} deadline task)
  unfolding close_overdue
  overdue-Keeps deadline task = Keeps-bind (Keeps-gets _) (λ at. count-Keeps _ _ refl)

  deadlines-Keeps : (deadline : Option ℕ → String) → Keeps Follows (scan_deadlines {P = P} deadline)
  unfolding scan_deadlines
  deadlines-Keeps deadline =
      session-Keeps
        (Keeps-bind (Keeps-gets _) (λ rows. for_each-Keeps rows (overdue-Keeps deadline)))

  give_up-Keeps : (id : String) → Keeps Follows (give_up_id {P = P} id)
  unfolding give_up_id give_up
  give_up-Keeps id =
      Keeps-bind (Keeps-gets _)
        (λ found. Keeps-elim found (Keeps-pure 0) (λ task. count-Keeps _ _ refl))

  give_all-Keeps : (ids : List String) → Keeps Follows (give_up_all {P = P} ids)
  unfolding give_up_all
  give_all-Keeps [] = Keeps-pure 0
  give_all-Keeps (id ∷ ids) =
      Keeps-bind (give_up-Keeps id) (λ n. Keeps-bind (give_all-Keeps ids) (λ k. Keeps-pure _))

  unknowns-Keeps : (limit lifetime : ℕ) → Keeps Follows (bound_unknowns {P = P} limit lifetime)
  unfolding bound_unknowns
  unknowns-Keeps limit lifetime = session-Keeps (Keeps-bind (Keeps-gets _) give_all-Keeps)

  slot-Keeps : (channel : String) (n : ℕ) → Keeps Follows (calibrate_slot {P = P} channel n)
  unfolding calibrate_slot
  slot-Keeps channel n = record { at = λ w k. k }

  calibrate-Keeps : (real : Counts) → Keeps Follows (calibrate_all {P = P} real)
  unfolding calibrate_all
  calibrate-Keeps [] = Keeps-pure 0
  calibrate-Keeps ((channel, n) ∷ rest) =
      Keeps-bind (slot-Keeps channel n) (λ d. Keeps-bind (calibrate-Keeps rest) (λ k. Keeps-pure _))

  tick-Keeps :
      (env : Env P) (settings : TickSettings) (deadline : Option ℕ → String)
      → Keeps Follows (run_tick env settings deadline)
  unfolding run_tick calibrate_concurrency
  tick-Keeps env settings deadline = Keeps-bind (stalls-Keeps env _) (λ a.
      Keeps-bind (deadlines-Keeps deadline) (λ b. Keeps-bind (unknowns-Keeps _ _) (λ c.
        Keeps-bind (orphans-Keeps env _) (λ d.
          Keeps-bind (transfers-Keeps env)
            (λ e. Keeps-bind (Keeps-bind (Keeps-gets _) calibrate-Keeps) (λ f. Keeps-pure _))))))

-- Whatever the scheduler dispatches and whatever a tick of the inspector does, also when a scan
-- raises and its session is rolled back, a row that is in the table stays in it under its key; its
-- status has moved along the whitelist, its version has not fallen, a cancellation that was
-- requested still is, and a stored result is still the same. No other writer acts meanwhile.
workers_follow_whitelist :
    {P : Type 0} (env : Env P) (settings : TickSettings) (deadline : Option ℕ → String)
    (batch lease : ℕ) (id : String) (w : World P) {r : Task}
    → get id w.table ≡ some r
    → let ticked = (run_tick env settings deadline w).1 in
      let dispatched = (dispatch_due env batch lease w).1 in
      ((s : Task) × (get id ticked.table ≡ some s) × RowStep r s)
      × ((s : Task) × (get id dispatched.table ≡ some s) × RowStep r s)
workers_follow_whitelist env settings deadline batch lease id w e =
    let same = TableStep-refl w.table in
    (
      get-TableStep id w.table _ ((tick-Keeps w.table env settings deadline).at w same) e,
      get-TableStep id w.table _ ((dispatch_due-Keeps w.table env batch lease).at w same) e,
    )
