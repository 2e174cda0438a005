-- ===== src/Workers/Inspector/Deadlines.antt =====
-- The scan of the deadlines: when it raises, and what it closes otherwise.
use async_task.Prelude.{
  ℕ, ◌+◌, Bool, true, false, not, ◌||◌, String, Option, List, [], ◌∷◌, any, ◌≡◌, refl, ap, ◌∙◌,
  Bool-cases, inl, inr,
}
use async_task.Outcome.{Result, ok, raised}
use async_task.Domain.Status.{timeout}
use async_task.Domain.Transitions.{can_transition}
use async_task.Db.Task.{Task, Table}
use async_task.Db.Dao.Cas.{advance}
use async_task.Db.Dao.Calls.{perform}
use async_task.Db.Dao.Closing.{one_allowed, one_refused}
use async_task.Db.Dao.Queries.{overdue_deadlines}
use async_task.Tasks.World.{World, M, pure, ◌>>=◌, continue}
use async_task.Tasks.World.Actions.{commit}
use async_task.Workers.Session.{close_session, in_session, for_each}
use async_task.Workers.Inspector.{row_limit, close_overdue, scan_deadlines}

abbrev pub raises : {A : Type 0} → Result A → Bool
raises (ok a) = false
raises (raised e) = true

abbrev pub may_time_out : Task → Bool
may_time_out r = can_transition r.status timeout

continue-raises :
    {P A B : Type 0} (r : Result A) (f : A → M P B) (w : World P) (b : Bool)
    → ((a : A) (w' : World P) → raises (f a w').0 ≡ b)
    → raises (continue r f w).0 ≡ (raises r || b)
continue-raises (ok a) f w b h = h a w
continue-raises (raised e) f w b h = refl

bind-raises :
    {P A B : Type 0} (m : M P A) (f : A → M P B) (w : World P) (b : Bool)
    → ((a : A) (w' : World P) → raises (f a w').0 ≡ b)
    → raises ((m >>= f) w).0 ≡ (raises (m w).0 || b)
unfolding ◌>>=◌
bind-raises m f w b h = continue-raises (m w).0 f (m w).1 b h

or_false : (b : Bool) → (b || false) ≡ b
or_false true = refl
or_false false = refl

pure-raises : {P A : Type 0} (a : A) (w : World P) → raises (pure a w).0 ≡ false
unfolding ◌>>=◌
pure-raises a w = refl

module _ {P : Type 0} (deadline : Option ℕ → String) where
  pub close-raises :
      (task : Task) (w : World P)
      → raises (close_overdue deadline task w).0 ≡ not (may_time_out task)
  unfolding close_overdue ◌>>=◌ commit perform advance
  close-raises task w = elim (Bool-cases (may_time_out task)) [
    | inl fine ↦ rw (fine, one_allowed task.status timeout fine, advance) refl
    | inr bad ↦ rw (bad, one_refused task.status timeout bad, advance) refl
  ]

  each-raises :
      (rows : List Task) (w : World P)
      → raises (for_each (close_overdue deadline) rows w).0 ≡ any (λ r. not (may_time_out r)) rows
  unfolding for_each
  each-raises [] w = pure-raises 0 w
  each-raises (r ∷ rows) w =
      bind-raises (close_overdue deadline r) _ w (any (λ x. not (may_time_out x)) rows) (λ n w'.
        bind-raises (for_each (close_overdue deadline) rows) _ w' false (λ k. pure-raises (n + k))
        ∙ or_false _
        ∙ each-raises rows w')
      ∙ ap (λ b. b || any (λ x. not (may_time_out x)) rows) (close-raises r w)

  closed-raises :
      {A : Type 0} (before : Table) (s : Result A × World P)
      → raises (close_session before s).0 ≡ raises s.0
  closed-raises before (ok a, w) = refl
  closed-raises before (raised e, w) = refl

  rolled_back :
      {A : Type 0} (before : Table) (s : Result A × World P)
      → raises (close_session before s).0 ≡ true
      → (close_session before s).1.table ≡ before
  rolled_back before (ok a, w) h = cc
  rolled_back before (raised e, w) h = refl

  -- The scan of the deadlines raises exactly when one of the rows that it lists is in a status
  -- from which the whitelist has no way to `timeout`; then no row is closed at all.
  pub deadlines_blocked_iff :
      (w : World P)
      → let scanned = scan_deadlines deadline w in
        (raises scanned.0
          ≡ any (λ r. not (may_time_out r)) (overdue_deadlines row_limit w.clock w.table))
        × (raises scanned.0 ≡ true → scanned.1.table ≡ w.table)
  unfolding scan_deadlines in_session ◌>>=◌
  deadlines_blocked_iff w =
      let rows = overdue_deadlines row_limit w.clock w.table in
      let s = for_each (close_overdue deadline) rows w in
      (closed-raises w.table s ∙ each-raises rows w, rolled_back w.table s)
