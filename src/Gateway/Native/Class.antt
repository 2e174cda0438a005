-- ===== src/Gateway/Native/Class.antt =====
-- As what a caller reads the answer to a query on a task that has ended.
use async_task.Prelude.{ℕ, Bool, false, Option, get_or, ◌≡◌}
use mathlib.Core.Option
use async_task.Db.Json.{Json, str, obj, Fields}
use async_task.Db.Task.{Task}
use async_task.Templates.Expression.Laws.{Leads}
use async_task.Templates.Schema.{ResolvedTemplate}
use async_task.Gateway.Native.{effective_status_value}

module _ (dump_size : Json → ℕ) (late : ℕ → Bool) where
  -- The snapshot has what the raw status says, where the answer is to keep it.
  abbrev pub Agrees : ResolvedTemplate → Task → Fields → Type 0
  Agrees t task d =
      (j : Json)
      → (effective_status_value task.status task.raw_status t.terminal).1 ≡ false
      → Leads t.status_field (obj d) j
      → j ≡ str (get_or task.raw_status "")
