-- ===== src/Workers/Inspector/Closes.antt =====
-- What the scan of the deadlines closes.
use mathlib.Core.List.{Memᴰ}
use mathlib.Core.List.Memᴰ
use async_task.Prelude.{
  ℕ, ◌+◌, Bool, true, false, not, String, Option, none, some, List, [], ◌∷◌, any, ◌≡◌, refl, sym,
  subst, ap, ◌∙◌, inl, inr, ◌⊎◌,
}
use async_task.Outcome.{Result, ok, raised}
use async_task.Domain.Status.{timeout, ErrorCode}
use async_task.Db.Task.{Task, Table}
use async_task.Db.Assign.{
  Assign, set_error_code, set_error_message, set_finished_at, set_next_poll_at,
}
use Prim.Native.String
use async_task.Db.Dao.Cas.{get, advance}
use async_task.Db.Dao.Calls.{Call, perform}
use async_task.Db.Dao.Advance.{table_after}
use async_task.Db.Dao.Closing.{advance_row, advance_hit}
use async_task.Db.Dao.Queries.{overdue_deadlines}
use async_task.Tasks.World.{World, M, pure, ◌>>=◌, continue}
use async_task.Tasks.World.Actions.{commit, commit_with}
use async_task.Tasks.World.Tables.{with-table}
use async_task.Workers.Session.{close_session, in_session, for_each}
use async_task.Workers.Inspector.{row_limit, one_if, close_overdue, scan_deadlines}
use async_task.Workers.Inspector.Deadlines.{
  raises, may_time_out, close-raises, deadlines_blocked_iff,
}
use async_task.Workers.Session.Keeps.{for_each-Keeps}
use async_task.Tasks.World.Keeps.{Keeps}
use async_task.Db.Dao.Rows.{or_left, or_right}

-- The task as it was read, or closed.
abbrev Closed : Task → Table → Type 0
Closed task t = (s : Task) × (get task.task_id t ≡ some s) × (s.status ≡ timeout)

abbrev Reached : Task → Table → Type 0
Reached task t = (get task.task_id t ≡ some task) ⊎ Closed task t

abbrev values : (Option ℕ → String) → Task → ℕ → List Assign
values deadline task at =
    set_error_code (some ErrorCode.timeout)
    ∷ set_error_message (some (String.◌++◌ "deadline exceeded at " (deadline task.deadline_at)))
    ∷ set_finished_at (some at)
    ∷ set_next_poll_at none
    ∷ []

of_not-false : (b : Bool) → not b ≡ false → b ≡ true
of_not-false true h = refl
of_not-false false h = cc

module _ {P : Type 0} (deadline : Option ℕ → String) where
  count-table :
      {A : Type 0} (r : Result A) (f : A → ℕ) (w : World P)
      → (continue r (λ a. pure (f a)) w).1.table ≡ w.table
  unfolding ◌>>=◌
  count-table (ok a) f w = refl
  count-table (raised e) f w = refl

  -- A round is the `advance`.
  close-table :
      (r : Task) (w : World P)
      → (close_overdue deadline r w).1.table
        ≡ table_after
            (advance w.clock r.task_id timeout
              (some (r.status ∷ []))
              (values deadline r w.clock)
              w.table)
            w.table
  unfolding close_overdue ◌>>=◌ commit perform
  close-table r w =
      let c = Call.advance r.task_id timeout (some (r.status ∷ [])) (values deadline r w.clock) in
      let written = commit_with c (perform w.clock c w.table) w in
      count-table written.0 one_if written.1 ∙ with-table c (perform w.clock c w.table) w

  module _ (task : Task) where
    close-Closed :
        (r : Task) (w : World P)
        → Closed task w.table
        → Closed task (close_overdue deadline r w).1.table
    close-Closed r w (s, e, h) =
        let (x, e', same) =
          advance_row w.clock timeout (values deadline r w.clock) r.task_id r.status task.task_id
            w.table e in
        (
          x,
          ap (get task.task_id) (close-table r w) ∙ e',
          elim same [ inl still ↦ ap (λ y. y.status) still ∙ h | inr closed ↦ closed ],
        )

    close-Reached :
        (r : Task) (w : World P)
        → Reached task w.table
        → Reached task (close_overdue deadline r w).1.table
    close-Reached r w (inr closed) = inr (close-Closed r w closed)
    close-Reached r w (inl e) =
        let (x, e', same) =
          advance_row w.clock timeout (values deadline r w.clock) r.task_id r.status task.task_id
            w.table e in
        let found = ap (get task.task_id) (close-table r w) ∙ e' in
        elim same [ inl still ↦ inl (found ∙ ap some still) | inr closed ↦ inr (x, found, closed) ]

    close-it :
        (w : World P)
        → may_time_out task ≡ true
        → Reached task w.table
        → Closed task (close_overdue deadline task w).1.table
    close-it w h (inr closed) = close-Closed task w closed
    close-it w h (inl e) =
        let (x, e', closed) =
          advance_hit w.clock timeout (values deadline task w.clock) task.task_id w.table e h in
        (x, ap (get task.task_id) (close-table task w) ∙ e', closed)

    closing : (r : Task) → Keeps (λ (w : World P). Closed task w.table) (close_overdue deadline r)
    closing r = record { at = close-Closed r }

    continue-ok :
        {A : Type 0} (r : Result A) (f : A → M P ℕ) (w : World P)
        → raises r ≡ false
        → ((a : A) → Closed task (f a w).1.table)
        → Closed task (continue r f w).1.table
    continue-ok (ok a) f w n h = h a
    continue-ok (raised e) f w n h = cc

    -- A loop that meets no blocked row and meets the task closes it.
    each-Closed :
        (rows : List Task) (w : World P)
        → any (λ r. not (may_time_out r)) rows ≡ false
        → Memᴰ task rows
        → Reached task w.table
        → Closed task (for_each (close_overdue deadline) rows w).1.table
    unfolding for_each ◌>>=◌
    each-Closed [] w fine m k = elim m [ ]
    each-Closed (r ∷ rows) w fine m k =
        continue-ok (close_overdue deadline r w).0 _ w'
          (close-raises deadline r w ∙ or_left (not (may_time_out r)) _ fine)
          (λ n.
            let rest = for_each (close_overdue deadline) rows w' in
            subst (Closed task) (sym (count-table rest.0 (λ k. n + k) rest.1)) (
              after (Memᴰ.cases_cons m)
                (each-Closed rows w' (or_right (not (may_time_out r)) _ fine))))
      where
        w' : World P
        w' = (close_overdue deadline r w).1

        may_time : r ≡ task → may_time_out task ≡ true
        may_time e =
            subst (λ x. may_time_out x ≡ true) e
              (of_not-false (may_time_out r) (or_left (not (may_time_out r)) _ fine))

        after :
            (task ≡ r) ⊎ Memᴰ task rows
            → (Memᴰ task rows
                → Reached task w'.table
                → Closed task (for_each (close_overdue deadline) rows w').1.table)
            → Closed task (for_each (close_overdue deadline) rows w').1.table
        after (inl e) rec = (for_each-Keeps rows closing).at w' (
            subst (λ x. Closed task (close_overdue deadline x w).1.table) e
              (close-it w (may_time (sym e)) k))
        after (inr m) rec = rec m (close-Reached r w k)

  closed-table :
      {A : Type 0} (before : Table) (s : Result A × World P)
      → raises (close_session before s).0 ≡ false
      → (close_session before s).1.table ≡ s.1.table
  closed-table before (ok a, w) h = refl
  closed-table before (raised e, w) h = cc

  -- If the scan of the deadlines does not raise, and no other writer acts between its SELECT and its
  -- UPDATEs, then each task that it listed, as its key finds it, is in the state `timeout`
  -- afterwards.
  pub deadlines_close :
      (task : Task) (w : World P)
      → Memᴰ task (overdue_deadlines row_limit w.clock w.table)
      → get task.task_id w.table ≡ some task
      → raises (scan_deadlines deadline w).0 ≡ false
      → (s : Task) × (get task.task_id (scan_deadlines deadline w).1.table ≡ some s)
        × (s.status ≡ timeout)
  unfolding scan_deadlines in_session ◌>>=◌
  deadlines_close task w m e fine =
      let rows = overdue_deadlines row_limit w.clock w.table in
      let s = for_each (close_overdue deadline) rows w in
      let none_blocked = sym ((deadlines_blocked_iff deadline w).0) ∙ fine in
      subst (Closed task) (sym (closed-table w.table s fine))
        (each-Closed task rows w none_blocked m (inl e))
