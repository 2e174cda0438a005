-- ===== src/Examples/Db.antt =====
-- The theorems on the task table at concrete inputs.
use async_task.Prelude.{ℕ, false, none, some, List, [], ◌∷◌, ◌≡◌, ◌⊎◌, inr, refl}
use async_task.Domain.Status.{in_progress, dead, dead_awaiting_confirm}
use async_task.Db.Task.{Task}
use async_task.Db.Dao.Cas.{get}
use async_task.Db.Dao.Writes.{mark_submit_intent}
use async_task.Db.Dao.Calls.{Call, run}
use async_task.Db.Dao.History.{terminal_once}
use async_task.Db.Dao.Exclusion.{intent_exclusive}
use async_task.Db.Dao.Cas.{cas, hit, matches}
use async_task.Examples.Samples.{done_task, rows}

-- Two workers' calls, one after the other.
calls : List (ℕ × Call)
calls =
    (6_000_000, Call.mark_submit_intent "t1")
    ∷ (7_000_000, Call.set_cancel_requested "t1")
    ∷ (8_000_000, Call.mark_submitted "t1" "u9" none none 9_000_000)
    ∷ (9_000_000, Call.set_result_ref "t2" "other" none none)
    ∷ (9_000_001, Call.advance "t1" in_progress none [])
    ∷ []

terminal_once_example :
    (s : Task) × (get "t2" (run calls rows) ≡ some s)
    × ((s.status ≡ done_task.status)
        ⊎ ((done_task.status ≡ dead_awaiting_confirm) × (s.status ≡ dead)))
unfolding calls get async_task.Domain.Transitions.is_business_terminal
terminal_once_example =
    terminal_once calls rows "t2" {r = done_task} (refl, (refl, (refl, (refl, (refl, tt))))) refl
      refl

between : List (ℕ × Call)
between = (7_000_000, Call.set_cancel_requested "t1") ∷ []

intent_exclusive_example :
    (mark_submit_intent 8_000_000 "t1" (run between (mark_submit_intent 6_000_000 "t1" rows).1)).0
    ≡ false
unfolding between mark_submit_intent cas hit matches
intent_exclusive_example =
    intent_exclusive "t1" 6_000_000 8_000_000 between rows (inr (refl, (refl, tt))) refl (refl, tt)
