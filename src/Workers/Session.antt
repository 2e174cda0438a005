-- ===== src/Workers/Session.antt =====
-- `session_scope` of src/async_gateway/db/base.py, as the workers use it: one transaction around
-- several statements, rolled back when an exception leaves it. What was sent to the bus stays sent.
-- Inside a session no other writer acts, as if it were serializable; the source runs at the default
-- of the database, where a row may change between its SELECT and its UPDATE. The loops below take their rows as an argument, so that
-- what is said of them holds of rows that were read at any time.
pub mod Keeps
use async_task.Prelude.{ℕ, List, [], ◌∷◌, ◌+◌}
use async_task.Outcome.{Result, ok, raised}
use async_task.Db.Task.{Task, Table}
use async_task.Tasks.World.{World, M, pure, ◌>>=◌}

module _ {P A : Type 0} where
  abbrev pub close_session : Table → Result A × World P → Result A × World P
  close_session before (ok a, w) = (ok a, w)
  close_session before (raised e, w) = (raised e, record w { table = before })

  unfoldable pub in_session : M P A → M P A
  in_session body w = close_session w.table (body w)

module _ {P : Type 0} where
  -- `for task in rows: ...`, adding up what each round returns.
  unfoldable pub for_each : (Task → M P ℕ) → List Task → M P ℕ
  for_each body [] = pure 0
  for_each body (r ∷ rows) = do n ← body r; k ← for_each body rows; pure (n + k)
